-- ===== src/Web/Pages/Routes.antt =====
-- `RoutesPage` of web/src/workspace.
pub mod Paths
use proxer.Base.{
  ℕ, String, Bool, true, false, not, ◌≡◌, refl, Option, none, some, List, [], ◌∷◌, ◌++◌, map,
  get_or, or_else, or_text, ◌<>◌, ◌==◌, if◌then◌else◌, first, ◌&&◌, truthy, arith,
}
use proxer.Number.{Num, int, frac, infinite}
use proxer.Json.{Json, object}
use proxer.Json
use proxer.Text.Uri.{encode_uri_component}
use proxer.Effect.{
  Request, get, send, bare, Ask, Replies, done, ◌>>=◌, ◌>>◌, modify, all, try_catch, finally,
}
use proxer.Web.Types
use proxer.Web.Types.{
  User, Tenant, AuthMeResponse, UsageGauge, RouteView, ConnectorView, DashboardPayload,
  AdminStatsPayload, SystemStatusPayload, Incident, Plan, TlsCertificate, TenantEnvironment, Shape,
  Of, Action,
}
use proxer.Web.Format.{
  format_number, format_percent, format_date_time, ring_percent, to_error_message,
}
use proxer.Web.View.{
  Cell, Block, Panel, badge_of, text, number, badge, button, loading_line, error_line, message_line,
  output_line, pairs, table, inputs, rows_or, when, guarded,
}
use proxer.Web.Page.{
  Page, FormData, form_text, form_number, form_checked, load_page, mutate, set_message, set_error,
  reset, fresh,
}

pub record RoutesData : Type 0 where
  pub routes : List RouteView
  pub connectors : List ConnectorView
  pub tenants : List Tenant

abbrev pub is_super : AuthMeResponse → Bool
is_super me = me.user.role == "super_admin"

-- `me.user.tenant_id || tenants[0]?.id || "default"`
unfoldable pub default_tenant : AuthMeResponse → List Tenant → String
default_tenant me [] = or_else me.user.tenant_id "default"
default_tenant me (t ∷ ts) = or_else me.user.tenant_id (or_text t.id "default")

abbrev pub route_form : String → FormData
route_form tenant =
    ("tenant_id", tenant)
    ∷ ("id", "")
    ∷ ("target", "")
    ∷ ("connector_id", "")
    ∷ ("local_scheme", "http")
    ∷ ("local_host", "127.0.0.1")
    ∷ ("local_port", "")
    ∷ ("local_base_path", "")
    ∷ ("token", "")
    ∷ ("max_rps", "")
    ∷ []

abbrev pub asks : List (Ask Shape)
asks =
    (Shape.routes, get "/api/me/routes")
    ∷ (Shape.connectors, get "/api/me/connectors")
    ∷ (Shape.tenants, get "/api/tenants")
    ∷ []

abbrev pub store : Replies Shape Of asks → RoutesData → RoutesData
store (routes_payload, (connectors_payload, (tenants_payload, _))) d = record {
  routes = get_or routes_payload [];
  connectors = get_or connectors_payload [];
  tenants = get_or tenants_payload [];
}

unfoldable pub load : Action (Page RoutesData)
unfolding load_page
load = load_page asks store

-- the tenant that `submitRoute` writes to
unfoldable pub target_tenant : AuthMeResponse → Page RoutesData → String
unfolding default_tenant
target_tenant me s =
    if is_super me then form_text s.form "tenant_id" "" else default_tenant me s.content.tenants

unfoldable pub route_path : String → String
route_path tenant = "/api/tenants/" <> encode_uri_component tenant <> "/routes"

pub route_body : FormData → Json
route_body form = object (
    ("id", Json.text (form_text form "id" ""))
    ∷ ("target", Json.text (form_text form "target" ""))
    ∷ ("token", Json.text (form_text form "token" ""))
    ∷ ("max_rps", form_number form "max_rps")
    ∷ ("connector_id", Json.text (form_text form "connector_id" ""))
    ∷ ("local_scheme", Json.text (form_text form "local_scheme" "http"))
    ∷ ("local_host", Json.text (form_text form "local_host" "127.0.0.1"))
    ∷ ("local_port", form_number form "local_port")
    ∷ ("local_base_path", Json.text (form_text form "local_base_path" ""))
    ∷ [])

-- `submitRoute`, in the page as it was rendered
unfoldable pub submit_route : AuthMeResponse → Page RoutesData → Action (Page RoutesData)
unfolding mutate load target_tenant route_path route_body
submit_route me s =
    mutate (Shape.message, send "POST" (route_path (target_tenant me s)) (route_body s.form))
      (λ _ t.
        reset (route_form (default_tenant me t.content.tenants)) (set_message "Route saved." t))
      load

-- the path of the request of `deleteRoute`
unfoldable pub delete_path : RouteView → String
unfolding route_path
delete_path route = route_path route.tenant_id <> "/" <> encode_uri_component route.id

-- `deleteRoute`
unfoldable pub delete_route : RouteView → Action (Page RoutesData)
unfolding mutate load delete_path
delete_route route = mutate (Shape.nothing, bare "DELETE" (delete_path route)) (λ _ s. s) load

-- `route.max_rps && route.max_rps > 0 ? route.max_rps : "-"`
unfoldable pub rps_cell : Option Num → Cell
rps_cell (some (frac false (ℕ.suc n) d)) = number (frac false (ℕ.suc n) d)
rps_cell (some (infinite false)) = number (infinite false)
rps_cell _ = text "-"

route_row : RouteView → List Cell
unfolding badge_of rps_cell
route_row route =
    text route.tenant_id
    ∷ text route.id
    ∷ text (or_else route.connector_id "-")
    ∷ rps_cell route.max_rps
    ∷ badge_of (if get_or route.connected false then "active" else "offline")
    ∷ text (get_or route.public_url "-")
    ∷ button "Delete"
    ∷ []

unfoldable pub view : Page RoutesData → List Panel
unfolding route_row
view s =
    record {
      title = "Create Route";
      actions = [];
      children =
          inputs (
            "tenant_id" ∷ "id" ∷ "target" ∷ "connector_id" ∷ "local_scheme" ∷ "local_host"
            ∷ "local_port" ∷ "local_base_path" ∷ "token" ∷ "max_rps" ∷ [])
          ∷ when (truthy s.message) (message_line s.message);
    }
    ∷ record {
      title = "Routes";
      actions = "Refresh" ∷ [];
      children = guarded s.loading s.error (
          table
            ("Tenant" ∷ "ID" ∷ "Connector" ∷ "Max RPS" ∷ "Status" ∷ "Public URL" ∷ "Action" ∷ [])
            (rows_or "No routes." (map route_row s.content.routes)));
    }
    ∷ []
