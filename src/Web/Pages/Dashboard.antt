-- ===== src/Web/Pages/Dashboard.antt =====
-- `TenantDashboardPage` and `GaugeCard` of web/src/workspace.
use proxer.Base.{
  ℕ, String, false, Option, none, some, List, [], ◌∷◌, map, get_or, ◌<>◌, if◌then◌else◌, truthy,
}
use proxer.Number.{Num, int}
use proxer.Effect.{get, Ask, Replies}
use proxer.Web.Types
use proxer.Web.Types.{
  User, Tenant, AuthMeResponse, UsageGauge, RouteView, ConnectorView, DashboardPayload,
  AdminStatsPayload, SystemStatusPayload, Incident, Plan, TlsCertificate, TenantEnvironment, Shape,
  Of, Action,
}
use proxer.Web.Format.{format_number, format_date_time, ring_percent}
use proxer.Web.View.{
  Cell, Panel, badge_of, text, number, loading_line, error_line, pairs, table, rows_or,
}
use proxer.Web.Page.{Page, load_page}

abbrev pub asks : List (Ask Shape)
asks = (Shape.dashboard, get "/api/me/dashboard") ∷ []

abbrev pub store : Replies Shape Of asks → Option DashboardPayload → Option DashboardPayload
store (payload, _) d = some payload

unfoldable pub load : Action (Page (Option DashboardPayload))
unfolding load_page
load = load_page asks store

-- `GaugeCard`: the caption, and the percentage that fills the ring
unfoldable pub gauge_card : String → Option UsageGauge → String × Cell
unfolding ring_percent format_number
gauge_card title none =
    (title, text (format_number (some (int 0)) <> " / " <> format_number (some (int 0))))
gauge_card title (some gauge) =
    (title, text (format_number (some gauge.used) <> " / " <> format_number (some gauge.limit)))

unfoldable pub gauge_ring : Option UsageGauge → ℕ
unfolding ring_percent
gauge_ring none = ring_percent none
gauge_ring (some gauge) = ring_percent (some gauge.percent)

-- `data?.gauges?.name`
abbrev pub gauge_of :
    (Types.Gauges → Option UsageGauge) → Option DashboardPayload → Option UsageGauge
gauge_of name none = none
gauge_of name (some d) = elim d.gauges [ none ↦ none | some gauges ↦ name gauges ]

-- `data?.status?.name ?? 0`
abbrev pub status_of : (Types.DashboardStatus → Option Num) → Option DashboardPayload → Num
status_of name none = int 0
status_of name (some d) = elim d.status [
  | none ↦ int 0
  | some status ↦ get_or (name status) (int 0)
]

abbrev pub plan_name : Option DashboardPayload → String
plan_name none = "free"
plan_name (some d) = get_or d.plan_id "free"

abbrev pub routes_of : Option DashboardPayload → List RouteView
routes_of none = []
routes_of (some d) = get_or d.routes []

abbrev pub connectors_of : Option DashboardPayload → List ConnectorView
connectors_of none = []
connectors_of (some d) = get_or d.connectors []

route_row : RouteView → List Cell
unfolding badge_of
route_row route =
    text route.tenant_id
    ∷ text route.id
    ∷ badge_of (if get_or route.connected false then "active" else "degraded")
    ∷ text (get_or route.public_url "-")
    ∷ []

connector_row : (String → Option String) → ConnectorView → List Cell
unfolding badge_of format_date_time
connector_row dates connector =
    text connector.id
    ∷ badge_of (if get_or connector.connected false then "online" else "offline")
    ∷ text (get_or connector.agent_id "-")
    ∷ text (format_date_time dates connector.last_seen)
    ∷ []

dashboard_panels : (String → Option String) → Option DashboardPayload → List Panel
unfolding route_row connector_row gauge_card
dashboard_panels dates d =
    record {
      title = "";
      actions = [];
      children =
          pairs (
            gauge_card "Routes" (gauge_of (λ g. g.routes) d)
            ∷ gauge_card "Connectors" (gauge_of (λ g. g.connectors) d)
            ∷ gauge_card "Traffic (GB)" (gauge_of (λ g. g.traffic) d)
            ∷ [])
          ∷ [];
    }
    ∷ record {
      title = "Live Status";
      actions = "Refresh" ∷ [];
      children =
          pairs (
            ("Plan", text (plan_name d))
            ∷ ("Blocked Requests", number (status_of (λ t. t.blocked_requests_month) d))
            ∷ ("Routes Active", number (status_of (λ t. t.routes_active) d))
            ∷ ("Connectors Online", number (status_of (λ t. t.connectors_online) d))
            ∷ [])
          ∷ [];
    }
    ∷ record {
      title = "Routes";
      actions = [];
      children =
          table ("Tenant" ∷ "Route" ∷ "Status" ∷ "Public URL" ∷ [])
            (rows_or "No routes yet." (map route_row (routes_of d)))
          ∷ [];
    }
    ∷ record {
      title = "Connectors";
      actions = [];
      children =
          table ("ID" ∷ "Status" ∷ "Agent" ∷ "Last Seen" ∷ [])
            (rows_or "No connectors yet." (map (connector_row dates) (connectors_of d)))
          ∷ [];
    }
    ∷ []

unfoldable pub view : (String → Option String) → Page (Option DashboardPayload) → List Panel
unfolding dashboard_panels
view dates s =
    if s.loading
    then record { title = "Dashboard"; actions = []; children = loading_line ∷ [] } ∷ []
    else if truthy s.error
    then record { title = "Dashboard"; actions = "Retry" ∷ []; children = error_line s.error ∷ [] }
      ∷ []
    else dashboard_panels dates s.content
