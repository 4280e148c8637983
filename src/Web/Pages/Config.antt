-- ===== src/Web/Pages/Config.antt =====
-- `TenantConfigPage` of web/src/workspace. The browser's `JSON.parse`, `JSON.stringify` and
-- `String(value)` are a parameter, `Codec`.
pub mod Laws
pub mod Races
use proxer.Base.{
  ℕ, String, Bool, true, false, not, ◌≡◌, refl, Option, none, some, List, [], ◌∷◌, ◌++◌, map,
  get_or, or_else, or_text, ◌<>◌, ◌==◌, if◌then◌else◌, first, ◌&&◌, truthy, arith,
}
use proxer.Number.{Num, int, frac}
use proxer.Json.{Json, Fields, Items, object}
use proxer.Text.{show}
use proxer.Number.Parse.{to_number}
use proxer.Json
use proxer.Text.Uri.{encode_uri_component}
use proxer.Effect.{
  Result, ok, fail, error, Request, get, send, bare, Ask, Replies, done, ◌>>=◌, ◌>>◌, modify, all,
  try_catch, finally,
}
use proxer.Web.Types
use proxer.Web.Types.{
  User, Tenant, AuthMeResponse, UsageGauge, RouteView, ConnectorView, DashboardPayload,
  AdminStatsPayload, SystemStatusPayload, Incident, Plan, TlsCertificate, TenantEnvironment, Shape,
  Of, Action,
}
use proxer.Web.Format.{
  format_number, format_percent, format_date_time, ring_percent, to_error_message,
}
use proxer.Web.Pages.Routes.{is_super}
use proxer.Web.View.{
  Cell, Block, Panel, badge_of, text, number, badge, button, loading_line, error_line, message_line,
  output_line, pairs, table, inputs, rows_or, when, guarded,
}
use proxer.Web.Page.{
  Page, FormData, form_text, form_number, form_checked, load_page, mutate, set_message, set_error,
  reset, fresh,
}

pub record ConfigData : Type 0 where
  pub tenants : List Tenant
  pub selected_tenant : String
  pub environment : TenantEnvironment
  pub variables_text : String

-- What the page asks of the browser's JSON: `parse` is `JSON.parse`, `print` is
-- `JSON.stringify(variables, null, 2)`, and `show_value` is `String(value)`.
pub record Codec : Type 0 where
  pub parse : String → Result Json
  pub print : List (String × String) → String
  pub show_value : Json → String

abbrev pub blank_environment : TenantEnvironment
blank_environment = record {
  scheme = "http";
  host = "127.0.0.1";
  default_port = int 3000;
  variables = some [];
}

abbrev pub initial : Page ConfigData
initial = fresh [] (record {
  tenants = [];
  selected_tenant = "";
  environment = blank_environment;
  variables_text = "{}";
})

abbrev pub asks : List (Ask Shape)
asks = (Shape.tenants, get "/api/tenants") ∷ []

-- the tenant that `loadTenants` selects
unfoldable pub choose_tenant : AuthMeResponse → List Tenant → String → String
choose_tenant me [] current = ""
choose_tenant me (t ∷ ts) current =
    if is_super me then or_text current t.id else or_else me.user.tenant_id t.id

abbrev pub store : AuthMeResponse → Replies Shape Of asks → ConfigData → ConfigData
store me (payload, _) d = record d {
  tenants = get_or payload [];
  selected_tenant = choose_tenant me (get_or payload []) d.selected_tenant;
}

-- `loadTenants`
unfoldable pub load_tenants : AuthMeResponse → Action (Page ConfigData)
unfolding load_page choose_tenant
load_tenants me = load_page asks (store me)

-- `onChange` of the tenant's select, shown to super admins
abbrev pub select_tenant : String → Page ConfigData → Page ConfigData
select_tenant id s = record s { content = record s.content { selected_tenant = id } }

abbrev pub environment_path : String → String
environment_path id = "/api/tenants/" <> encode_uri_component id <> "/environment"

abbrev pub show_environment : Codec → TenantEnvironment → Page ConfigData → Page ConfigData
show_environment codec env s = record s {
  content = record s.content {
    environment = env;
    variables_text = codec.print (get_or env.variables []);
  };
}

-- the body of `loadEnvironment`, behind its test
unfoldable pub fetch_environment : Codec → String → Action (Page ConfigData)
unfolding to_error_message
fetch_environment codec selected =
    modify (λ s. set_error "" (set_message "" s))
    >> try_catch
        (do
          (env, _) ← all ((Shape.environment, get (environment_path selected)) ∷ [])
          modify (show_environment codec env))
        (λ e. modify (set_error (to_error_message e)))

-- `loadEnvironment`, for the tenant that was selected when the page was rendered; a change of
-- `selectedTenant` runs it as an effect
unfoldable pub load_environment : Codec → String → Action (Page ConfigData)
unfolding fetch_environment
load_environment codec selected =
    if selected == "" then done tt else fetch_environment codec selected

-- The entries of a parsed object, with their values as texts. Assigning a text to `__proto__` of an
-- object is ignored.
abbrev pub entries : Codec → Fields → List (String × Json)
entries codec Json.end = []
entries codec (Json.field key value rest) =
    let more = entries codec rest in
    if key == "__proto__" then more else (key, Json.text (codec.show_value value)) ∷ more

-- the entries of a parsed array go by their positions
abbrev pub positions : Codec → ℕ → Items → List (String × Json)
positions codec n Json.nil = []
positions codec n (Json.cons value rest) =
    (show n, Json.text (codec.show_value value)) ∷ positions codec (ℕ.suc n) rest

-- the `variables` of the request, or the error that is shown in place of it; `isRecord` holds of
-- objects and of arrays
unfoldable pub read_variables : Codec → String → Result (List (String × Json))
read_variables codec line = elim (codec.parse line) [
  | fail e ↦ fail e
  | ok (Json.obj members) ↦ ok (entries codec members)
  | ok (Json.arr items) ↦ ok (positions codec 0 items)
  | ok _ ↦ fail (error "Variables must be a JSON object.")
]

abbrev pub save_request : ConfigData → List (String × Json) → Request
save_request d variables = send "PUT" (environment_path d.selected_tenant) (
    object (
      ("scheme", Json.text d.environment.scheme)
      ∷ ("host", Json.text d.environment.host)
      ∷ ("default_port", Json.num d.environment.default_port)
      ∷ ("variables", object variables)
      ∷ []))

abbrev send_variables : ConfigData → Result (List (String × Json)) → Action (Page ConfigData)
send_variables d (fail e) = modify (set_error (to_error_message e))
send_variables d (ok variables) =
    try_catch
      (do
        all ((Shape.message, save_request d variables) ∷ [])
        modify (set_message "Environment saved."))
      (λ e. modify (set_error (to_error_message e)))

-- `saveEnvironment`, in the page as it was rendered
unfoldable pub save_environment : Codec → ConfigData → Action (Page ConfigData)
unfolding to_error_message
save_environment codec d =
    if d.selected_tenant == ""
    then done tt
    else modify (λ s. set_error "" (set_message "" s))
      >> send_variables d (read_variables codec d.variables_text)

-- the `onChange` handlers of the form
pub data Edit : Type 0 where
  scheme host port variables : String → Edit

unfoldable pub edit : Edit → Page ConfigData → Page ConfigData
unfolding to_number
edit (scheme value) s = record s {
  content = record s.content { environment = record s.content.environment { scheme = value } };
}
edit (host value) s = record s {
  content = record s.content { environment = record s.content.environment { host = value } };
}
edit (port value) s = record s {
  content = record s.content {
    environment = record s.content.environment {
      default_port = if value == "" then int 0 else to_number value;
    };
  };
}
edit (variables value) s = record s { content = record s.content { variables_text = value } }

-- the form is shown once a tenant is selected, also beside an error
unfoldable pub view : AuthMeResponse → Page ConfigData → List Panel
view me s =
    record {
      title = "Tenant Environment";
      actions = "Refresh" ∷ [];
      children =
          when s.loading loading_line
          ++ when (truthy s.error) (error_line s.error)
          ++ when (not s.loading && truthy s.content.selected_tenant) (
              inputs (
                (if is_super me then "tenant_id" ∷ [] else [])
                ++ "scheme" ∷ "host" ∷ "default_port" ∷ "variables" ∷ []))
          ++ when (truthy s.message) (message_line s.message);
    }
    ∷ []
