-- ===== src/Web/Pages/Users/Refines.antt =====
-- The page of the users as a view of a directory of users.
use proxer.Base.{
  String, false, ◌≡◌, refl, Option, none, some, List, [], ◌∷◌, get_or, if◌then◌else◌, ◌<>◌, ap, sym,
  ◌∙◌, map,
}
use proxer.Json.{Json, object}
use proxer.Text.Uri.{encode_uri_component}
use proxer.Effect.{Thrown, Result, ok, fail, get, send}
use proxer.Effect.Run.{Server, run_all}
use proxer.Web.Types.{User, Tenant, Shape, Of, Action}
use proxer.Web.Page.{Page, FormData, form_text, set_message, reset}
use proxer.Web.Page.Sync.{Change, Backing, perform, apply, apply_all, load-run_all}
use proxer.Web.Pages.Users
use proxer.Web.Pages.Users.{UsersData}

-- what the server answers to a change: `none` where it refuses, with the error `e`
abbrev pub reply_of : {W : Type 0} → Thrown → Option W → W → Result (Of Shape.message) × W
reply_of e none w = (fail e, w)
reply_of e (some w') w = (ok tt, w')

-- A directory of users behind the gateway, `W`, and how the gateway's handlers for
-- `/api/admin/users` and `/api/tenants` read and change it.
pub record Directory (W : Type 0) : Type 0 where
  pub server : Server Shape Of W
  pub users_in : W → List User
  pub tenants_in : W → List Tenant
  -- adds a user of this name, password, role and tenant
  pub add : String → String → String → String → W → Option W
  -- sets the status of the user of this name
  pub set_status : String → String → W → Option W
  pub refusal : Thrown
  pub reads_users :
      (w : W) → server Shape.users (get "/api/admin/users") w ≡ (ok (some (users_in w)), w)
  pub reads_tenants :
      (w : W) → server Shape.tenants (get "/api/tenants") w ≡ (ok (some (tenants_in w)), w)
  pub adds :
      (name password role tenant : String) (w : W)
      → server Shape.message
          (send "POST" "/api/admin/users" (
            object (
              ("username", Json.text name)
              ∷ ("password", Json.text password)
              ∷ ("role", Json.text role)
              ∷ ("tenant_id", Json.text tenant)
              ∷ [])))
          w
        ≡ reply_of refusal (add name password role tenant w) w
  pub sets_status :
      (name status : String) (w : W)
      → server Shape.message
          (send "PATCH"
            ("/api/admin/users/" <> encode_uri_component name)
            (object (("status", Json.text status) ∷ [])))
          w
        ≡ reply_of refusal (set_status name status w) w

-- what the administrator does: submits the form with these values, or clicks the button of a user
pub data UserChange : Type 0 where
  creates : FormData → UserChange
  toggles : User → UserChange

-- the handler that the page runs for it
unfoldable pub handler : UserChange → Action (Page UsersData)
handler (creates form) = Users.create_user form
handler (toggles user) = Users.toggle_user_status user

abbrev change : UserChange → Change UsersData
change (creates form) = record {
  ask = (Shape.message, Users.create_request form);
  then_set = λ _ s. set_message "User created." (reset Users.user_form s);
}
change (toggles user) = record {
  ask = (Shape.message, Users.toggle_request user);
  then_set = λ _ s. s;
}

module _ {W : Type 0} (d : Directory W) where
  -- What it does to the directory, which stays as it is where the change is refused.
  unfoldable pub meant : UserChange → W → W
  meant (creates form) w =
      get_or
        (d.add (form_text form "username" "") (form_text form "password" "")
          (form_text form "role" "member") (form_text form "tenant_id" "") w)
        w
  meant (toggles user) w =
      get_or
        (d.set_status user.username (if Users.is_disabled user then "active" else "disabled") w) w

  abbrev pub meant_all : List UserChange → W → W
  meant_all [] w = w
  meant_all (c ∷ cs) w = meant_all cs (meant c w)

  reply_kept :
      (x : Option W) (w : W) (e : Thrown)
      → (reply_of d.refusal x w).0 ≡ fail e
      → (reply_of d.refusal x w).1 ≡ w
  reply_kept none w e h = refl
  reply_kept (some w') w e h = cc

  reply_world : (x : Option W) (w : W) → (reply_of d.refusal x w).1 ≡ get_or x w
  reply_world none w = refl
  reply_world (some w') w = refl

  change_kept :
      (c : UserChange) (w : W) (e : Thrown)
      → (d.server (change c).ask.0 (change c).ask.1 w).0 ≡ fail e
      → (d.server (change c).ask.0 (change c).ask.1 w).1 ≡ w
  unfolding Users.create_request Users.toggle_request
  change_kept (creates form) w e = rw (d.adds _ _ _ _ w) (reply_kept _ w e)
  change_kept (toggles user) w e = rw (d.sets_status _ _ w) (reply_kept _ w e)

  backing : Backing W UsersData UserChange change Users.asks Users.store
  backing = record {
    server = d.server;
    shown = λ w. record { users = d.users_in w; tenants = d.tenants_in w };
    replies = λ w. (some (d.users_in w), (some (d.tenants_in w), tt));
    fetched = λ w. rw (d.reads_users w, d.reads_tenants w) refl;
    stored = λ w e. refl;
    refused = change_kept;
  }

  apply-meant : (c : UserChange) (w : W) → apply backing c w ≡ meant c w
  unfolding backing Users.create_request Users.toggle_request meant
  apply-meant (creates form) w = rw (d.adds _ _ _ _ w) (
      reply_world
        (d.add (form_text form "username" "") (form_text form "password" "")
          (form_text form "role" "member") (form_text form "tenant_id" "") w)
        w)
  apply-meant (toggles user) w = rw (d.sets_status _ _ w) (
      reply_world
        (d.set_status user.username (if Users.is_disabled user then "active" else "disabled") w) w)

  apply_all-meant : (cs : List UserChange) (w : W) → apply_all backing cs w ≡ meant_all cs w
  apply_all-meant [] w = refl
  apply_all-meant (c ∷ cs) w =
      apply_all-meant cs (apply backing c w) ∙ ap (meant_all cs) (apply-meant c w)

  handler_performs : (c : UserChange) → perform backing c ≡ handler c
  unfolding handler Users.create_user Users.toggle_user_status Users.load
  handler_performs (creates form) = refl
  handler_performs (toggles user) = refl

  handlers_perform : (cs : List UserChange) → map (perform backing) cs ≡ map handler cs
  handlers_perform [] = refl
  handlers_perform (c ∷ cs) = rw (handler_performs c, handlers_perform cs) refl

  -- Over a gateway that keeps a `Directory`, the page shows what the administrator meant: after
  -- its load and any sequence of forms submitted and buttons clicked, each run to its end, the
  -- directory is the one that the changes were meant to leave, a refused one leaving it as it
  -- was, and the page is not loading, shows no error, and lists the users and tenants of that
  -- directory.
  pub users_refine :
      (changes : List UserChange) (s : Page UsersData) (w : W)
      → let after = run_all d.server (Users.load ∷ map handler changes) s w in
        (after.1 ≡ meant_all changes w)
        × (after.0.loading ≡ false)
        × (after.0.error ≡ "")
        × (after.0.content.users ≡ d.users_in (meant_all changes w))
        × (after.0.content.tenants ≡ d.tenants_in (meant_all changes w))
  unfolding backing Users.load
  users_refine changes s w =
      let (e, (l, m, n)) = load-run_all backing changes s w in
      rw (sym (handlers_perform changes), sym (apply_all-meant changes w))
        (e, l, m, ap (λ c. c.users) n, ap (λ c. c.tenants) n)
