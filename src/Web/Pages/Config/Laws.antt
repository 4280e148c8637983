-- ===== src/Web/Pages/Config/Laws.antt =====
-- The tenant configuration against a server: loading, saving, and what an error leaves behind.
use proxer.Number.{Num}
use proxer.Text.Uri.{encode_uri_component}
use proxer.Base.{
  All, ◌<>◌, String, true, false, ◌≡◌, refl, ap, List, [], ◌∷◌, arith, ◌==◌, get_or, some,
}
use proxer.Json.{Json, object, fields}
use proxer.Effect.{Thrown, Result, ok, fail, Request, get}
use proxer.Effect.Run.{Server, run}
use proxer.Web.Types
use proxer.Web.Types.{AuthMeResponse, TenantEnvironment, Tenant, Shape, Of}
use proxer.Web.Format.{to_error_message}
use proxer.Web.Page.{Page, set_error, set_message}
use proxer.Web.Pages.Routes.{is_super}
use proxer.Web.Pages.Config.{
  Codec, ConfigData, load_tenants, load_environment, save_environment, select_tenant,
  show_environment, environment_path, read_variables, entries,
}

-- the variables as members with text values
abbrev pub texts : List (String × String) → List (String × Json)
texts [] = []
texts ((key, value) ∷ rest) = (key, Json.text value) ∷ texts rest

-- a name that JavaScript's objects keep
abbrev pub IsKept : String × String → Type 0
IsKept (key, value) = (key == "__proto__") ≡ false

entries-texts :
    (codec : Codec)
    → ((line : String) → codec.show_value (Json.text line) ≡ line)
    → (vars : List (String × String)) → All IsKept vars
    → entries codec (fields (texts vars)) ≡ texts vars
entries-texts codec q [] h = refl
entries-texts codec q ((key, value) ∷ rest) (h, hs) =
    rw (h, q value, entries-texts codec q rest hs) refl

-- the request that puts these values to the environment of the tenant `id`
abbrev pub put_environment : String → String → String → Num → List (String × String) → Request
put_environment id scheme host port vars = record {
  method = "PUT";
  path = "/api/tenants/" <> encode_uri_component id <> "/environment";
  body = some (
      object (
        ("scheme", Json.text scheme)
        ∷ ("host", Json.text host)
        ∷ ("default_port", Json.num port)
        ∷ ("variables", object (texts vars))
        ∷ []));
}

-- neither an object nor an array
abbrev pub IsNoRecord : Result Json → Type 0
IsNoRecord (ok (Json.obj members)) = ⊥
IsNoRecord (ok (Json.arr items)) = ⊥
IsNoRecord _ = Unit {0}

module _ {W : Type 0} (server : Server Shape Of W) (me : AuthMeResponse) (t : Tenant)
    (ts : List Tenant) (s : Page ConfigData) (w w' : W) where
  -- After `loadTenants` a user who is no super admin has the tenant of the session selected,
  -- whatever was selected before and whatever tenants the reply names, if it names any.
  load_tenants_own :
      (tenant : String)
      → is_super me ≡ false
      → me.user.tenant_id ≡ some tenant
      → (tenant == "") ≡ false
      → server Types.tenants (get "/api/tenants") w ≡ (ok (some (t ∷ ts)), w')
      → (run server (load_tenants me) s w).state.content.selected_tenant ≡ tenant
  unfolding load_tenants
  load_tenants_own tenant a b c h = ground arith

  -- The tenant that a super admin has selected stays selected when the tenants are loaded again, if
  -- the reply names any.
  load_tenants_keeps :
      is_super me ≡ true
      → (s.content.selected_tenant == "") ≡ false
      → server Types.tenants (get "/api/tenants") w ≡ (ok (some (t ∷ ts)), w')
      → (run server (load_tenants me) s w).state.content.selected_tenant ≡ s.content.selected_tenant
  unfolding load_tenants
  load_tenants_keeps a b h = ground arith

module _ (codec : Codec) {W : Type 0} (server : Server Shape Of W) where
  -- `loadEnvironment` of a selected tenant sends one request, for that tenant. It shows the
  -- environment that the reply holds; after an error it shows the error and keeps the environment
  -- that was there.
  load_environment_lem :
      (id : String) (s : Page ConfigData) (w : W)
      → (id == "") ≡ false
      → (let answer = server Types.environment (get (environment_path id)) w in
          let cleared : Page ConfigData = set_error "" (set_message "" s) in
          run server (load_environment codec id) s w ≡ record {
            result = ok tt;
            state = elim answer.0 [
              | ok env ↦ show_environment codec env cleared
              | fail e ↦ set_error (to_error_message e) cleared
            ];
            world = answer.1;
            sent = get (environment_path id) ∷ [];
          })
  unfolding load_environment
  load_environment_lem id s w h = ground arith

  -- What does not parse as an object or an array is not saved: nothing is sent, the error is shown, the
  -- message is cleared, and the form is kept. This is so for a text that `JSON.parse` refuses, with its
  -- error, and for null, a Boolean, a number and a text.
  pub save_unreadable :
      (o : Result Json) (d : ConfigData) (s : Page ConfigData) (w : W)
      → (d.selected_tenant == "") ≡ false
      → codec.parse d.variables_text ≡ o
      → IsNoRecord o
      → run server (save_environment codec d) s w ≡ record {
        result = ok tt;
        state = record s {
          message = "";
          error = elim o [
            | fail e ↦ to_error_message e
            | ok v ↦ "Variables must be a JSON object."
          ];
        };
        world = w;
        sent = [];
      }
  unfolding save_environment read_variables to_error_message
  save_unreadable (fail e) d s w h p n = ground arith
  save_unreadable (ok Json.null) d s w h p n = ground arith
  save_unreadable (ok (Json.bool b)) d s w h p n = ground arith
  save_unreadable (ok (Json.num x)) d s w h p n = ground arith
  save_unreadable (ok (Json.text line)) d s w h p n = ground arith
  save_unreadable (ok (Json.arr items)) d s w h p n = absurd n
  save_unreadable (ok (Json.obj members)) d s w h p n = absurd n

  -- If the environment of a newly selected tenant cannot be loaded, the form keeps the environment
  -- of the tenant before, and saving it sends scheme, host and port of that environment, and the
  -- variables in the form, in a PUT to the environment of the new tenant: where those variables parse
  -- as the members of an object of texts, none of which is named `__proto__`, and `String` keeps a
  -- text.
  pub save_after_failed_load :
      (id : String) (e : Thrown) (vars : List (String × String)) (s : Page ConfigData) (w w' : W)
      → (id == "") ≡ false
      → server Types.environment
          (get ("/api/tenants/" <> encode_uri_component id <> "/environment"))
          w
        ≡ (fail e, w')
      → codec.parse s.content.variables_text ≡ ok (object (texts vars))
      → All IsKept vars
      → ((line : String) → codec.show_value (Json.text line) ≡ line)
      → (let after = run server (load_environment codec id) (select_tenant id s) w in
          let env = s.content.environment in
          (run server (save_environment codec after.state.content) after.state after.world).sent
          ≡ put_environment id env.scheme env.host env.default_port vars ∷ [])
  unfolding load_environment save_environment read_variables
  save_after_failed_load id e vars s w w' h k p a q = ground (arith, entries-texts codec q vars a)

  -- Loading the environment of a tenant with an id and saving it without an edit sends its scheme,
  -- host, port and variables in a PUT to the environment of that tenant: for an environment that has
  -- variables, none of them named `__proto__`, where the browser's `JSON.parse` reads what
  -- `JSON.stringify` wrote of them and `String` keeps a text.
  pub save_after_load :
      (id : String) (env : TenantEnvironment) (vars : List (String × String)) (s : Page ConfigData)
      (w w' : W)
      → (id == "") ≡ false
      → env.variables ≡ some vars
      → All IsKept vars
      → server Types.environment
          (get ("/api/tenants/" <> encode_uri_component id <> "/environment"))
          w
        ≡ (ok env, w')
      → codec.parse (codec.print vars) ≡ ok (object (texts vars))
      → ((line : String) → codec.show_value (Json.text line) ≡ line)
      → (let after = run server (load_environment codec id) (select_tenant id s) w in
          (run server (save_environment codec after.state.content) after.state after.world).sent
          ≡ put_environment id env.scheme env.host env.default_port vars ∷ [])
  unfolding load_environment save_environment read_variables
  save_after_load id env vars s w w' h v a k p q =
      ground (arith, entries-texts codec q vars a, ap (λ o. codec.print (get_or o [])) v)
