-- ===== src/Web/Pages/Plans.antt =====
-- `AdminPlansPage` of web/src/workspace.
use proxer.Base.{String, List, [], ◌∷◌, map, get_or, if◌then◌else◌, truthy}
use proxer.Number.{int}
use proxer.Json.{Json, object}
use proxer.Effect.{Request, get, send, Ask, Replies}
use proxer.Web.Types.{Plan, Shape, Of, Action}
use proxer.Web.Format.{format_number}
use proxer.Web.View.{
  Cell, Panel, badge_of, text, number, message_line, table, inputs, rows_or, when, guarded,
}
use proxer.Web.Page.{
  Page, FormData, form_text, form_number, form_checked, load_page, mutate, set_message, reset,
}

abbrev pub plan_form : FormData
plan_form =
    ("id", "")
    ∷ ("name", "")
    ∷ ("description", "")
    ∷ ("max_routes", "")
    ∷ ("max_connectors", "")
    ∷ ("max_rps", "")
    ∷ ("max_monthly_gb", "")
    ∷ ("price_monthly_usd", "")
    ∷ ("price_annual_usd", "")
    ∷ ("public_order", "")
    ∷ []

abbrev pub asks : List (Ask Shape)
asks = (Shape.plans, get "/api/admin/plans") ∷ []

abbrev pub store : Replies Shape Of asks → List Plan → List Plan
store (payload, _) d = get_or payload []

unfoldable pub load : Action (Page (List Plan))
unfolding load_page
load = load_page asks store

pub create_request : FormData → Request
create_request form = send "POST" "/api/admin/plans" (
    object (
      ("id", Json.text (form_text form "id" ""))
      ∷ ("name", Json.text (form_text form "name" ""))
      ∷ ("description", Json.text (form_text form "description" ""))
      ∷ ("max_routes", form_number form "max_routes")
      ∷ ("max_connectors", form_number form "max_connectors")
      ∷ ("max_rps", form_number form "max_rps")
      ∷ ("max_monthly_gb", form_number form "max_monthly_gb")
      ∷ ("tls_enabled", Json.bool (form_checked form "tls_enabled"))
      ∷ ("price_monthly_usd", form_number form "price_monthly_usd")
      ∷ ("price_annual_usd", form_number form "price_annual_usd")
      ∷ ("public_order", form_number form "public_order")
      ∷ []))

-- `createPlan`
unfoldable pub create_plan : FormData → Action (Page (List Plan))
unfolding mutate load create_request
create_plan form =
    mutate (Shape.message, create_request form)
      (λ _ s. set_message "Plan saved." (reset plan_form s)) load

plan_row : Plan → List Cell
unfolding badge_of format_number
plan_row plan =
    text plan.id
    ∷ text plan.name
    ∷ number plan.max_routes
    ∷ number plan.max_connectors
    ∷ number plan.max_rps
    ∷ number plan.max_monthly_gb
    ∷ text (format_number plan.price_monthly_usd)
    ∷ text (format_number plan.price_annual_usd)
    ∷ number (get_or plan.public_order (int 0))
    ∷ badge_of (if plan.tls_enabled then "enabled" else "disabled")
    ∷ []

plan_columns : List String
plan_columns =
    "ID" ∷ "Name" ∷ "Routes" ∷ "Connectors" ∷ "RPS" ∷ "Monthly GB" ∷ "Monthly USD" ∷ "Annual USD"
    ∷ "Order" ∷ "TLS" ∷ []

unfoldable pub view : Page (List Plan) → List Panel
unfolding plan_row plan_columns
view s =
    record {
      title = "Create Plan";
      actions = [];
      children =
          inputs (
            "id" ∷ "name" ∷ "description" ∷ "max_routes" ∷ "max_connectors" ∷ "max_rps"
            ∷ "max_monthly_gb" ∷ "price_monthly_usd" ∷ "price_annual_usd" ∷ "public_order"
            ∷ "tls_enabled" ∷ [])
          ∷ when (truthy s.message) (message_line s.message);
    }
    ∷ record {
      title = "Plans";
      actions = "Refresh" ∷ [];
      children =
          guarded s.loading s.error
            (table plan_columns (rows_or "No plans." (map plan_row s.content)));
    }
    ∷ []
