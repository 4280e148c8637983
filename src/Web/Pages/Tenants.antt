-- ===== src/Web/Pages/Tenants.antt =====
-- `AdminTenantsPage` of web/src/workspace.
use proxer.Base.{String, List, [], ◌∷◌, map, get_or, ◌<>◌, truthy}
use proxer.Number.{int}
use proxer.Json.{Json, object}
use proxer.Text.Uri.{encode_uri_component}
use proxer.Effect.{Request, get, send, Ask, Replies, done}
use proxer.Web.Types.{Tenant, Plan, Shape, Of, Action}
use proxer.Web.View.{
  Cell, Panel, text, number, button, message_line, table, inputs, rows_or, when, guarded,
}
use proxer.Web.Page.{Page, FormData, form_text, load_page, mutate, set_message, reset}

pub record TenantsData : Type 0 where
  pub tenants : List Tenant
  pub plans : List Plan

abbrev pub tenant_form : FormData
tenant_form = ("id", "") ∷ ("name", "") ∷ []

abbrev pub asks : List (Ask Shape)
asks = (Shape.tenants, get "/api/tenants") ∷ (Shape.plans, get "/api/admin/plans") ∷ []

abbrev pub store : Replies Shape Of asks → TenantsData → TenantsData
store (tenants_payload, (plans_payload, _)) d = record {
  tenants = get_or tenants_payload [];
  plans = get_or plans_payload [];
}

unfoldable pub load : Action (Page TenantsData)
unfolding load_page
load = load_page asks store

pub create_request : FormData → Request
create_request form = send "POST" "/api/tenants" (
    object (
      ("id", Json.text (form_text form "id" ""))
      ∷ ("name", Json.text (form_text form "name" ""))
      ∷ []))

-- `createTenant`
unfoldable pub create_tenant : FormData → Action (Page TenantsData)
unfolding mutate load create_request
create_tenant form =
    mutate (Shape.message, create_request form)
      (λ _ s. set_message "Tenant created." (reset tenant_form s)) load

unfoldable pub assign_request : String → String → Request
assign_request tenant_id plan_id =
    send "POST" ("/api/admin/tenants/" <> encode_uri_component tenant_id <> "/assign-plan")
      (object (("plan_id", Json.text plan_id) ∷ []))

-- `assignPlan`: the lists are not fetched again
unfoldable pub assign_plan : String → String → Action (Page TenantsData)
unfolding mutate assign_request
assign_plan tenant_id plan_id =
    mutate (Shape.message, assign_request tenant_id plan_id)
      (λ _. set_message ("Assigned plan " <> plan_id <> " to " <> tenant_id <> ".")) (done tt)

tenant_row : Tenant → List Cell
tenant_row tenant =
    text tenant.id
    ∷ text tenant.name
    ∷ number (get_or tenant.route_count (int 0))
    ∷ button "Assign"
    ∷ []

unfoldable pub view : Page TenantsData → List Panel
unfolding tenant_row
view s =
    record {
      title = "Create Tenant";
      actions = [];
      children = inputs ("id" ∷ "name" ∷ []) ∷ when (truthy s.message) (message_line s.message);
    }
    ∷ record {
      title = "Tenants";
      actions = "Refresh" ∷ [];
      children = guarded s.loading s.error (
          table ("ID" ∷ "Name" ∷ "Routes" ∷ "Assign Plan" ∷ [])
            (rows_or "No tenants." (map tenant_row s.content.tenants)));
    }
    ∷ []
