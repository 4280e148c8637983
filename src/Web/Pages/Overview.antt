-- ===== src/Web/Pages/Overview.antt =====
-- `AdminOverviewPage` of web/src/workspace.
use proxer.Base.{
  ℕ, String, true, false, Option, none, some, List, [], ◌∷◌, get_or, ◌==◌, if◌then◌else◌, leb,
  truthy,
}
use proxer.Number.{Num, int, frac, nan, infinite}
use proxer.Effect.{get, Ask, Replies}
use proxer.Web.Types
use proxer.Web.Types.{
  User, Tenant, AuthMeResponse, UsageGauge, RouteView, ConnectorView, DashboardPayload,
  AdminStatsPayload, SystemStatusPayload, Incident, Plan, TlsCertificate, TenantEnvironment, Shape,
  Of, Action,
}
use proxer.Web.Format.{format_percent}
use proxer.Web.Pages.Dashboard.{gauge_card}
use proxer.Web.View.{Cell, Panel, text, number, series, loading_line, error_line, pairs}
use proxer.Web.Page.{Page, load_page}

pub record OverviewData : Type 0 where
  pub stats : Option AdminStatsPayload
  pub status : Option SystemStatusPayload

abbrev pub asks : List (Ask Shape)
asks =
    (Shape.stats, get "/api/admin/stats")
    ∷ (Shape.system_status, get "/api/admin/system-status")
    ∷ []

abbrev pub store : Replies Shape Of asks → OverviewData → OverviewData
store (stats_payload, (status_payload, _)) d = record {
  stats = some stats_payload;
  status = some status_payload;
}

unfoldable pub load : Action (Page OverviewData)
unfolding load_page
load = load_page asks store

-- `Number(stats?.name ?? 0)`
abbrev pub stat : (AdminStatsPayload → Option Num) → Option AdminStatsPayload → Num
stat name none = int 0
stat name (some payload) = get_or (name payload) (int 0)

-- `status?.runtime?.name ?? 0`
abbrev pub runtime : (Types.RuntimeStatus → Option Num) → Option SystemStatusPayload → Num
runtime name none = int 0
runtime name (some payload) = elim payload.runtime [
  | none ↦ int 0
  | some status ↦ get_or (name status) (int 0)
]

abbrev pub error_rate : Option SystemStatusPayload → Option Num
error_rate none = none
error_rate (some payload) = elim payload.runtime [ none ↦ none | some status ↦ status.error_rate ]

-- `funnelTotals.name ?? 0`
abbrev pub total_in : String → List (String × Num) → Num
total_in name [] = int 0
total_in name ((key, n) ∷ rest) = if key == name then n else total_in name rest

abbrev pub total : String → Option AdminStatsPayload → Num
total name none = int 0
total name (some payload) = total_in name (get_or payload.totals [])

abbrev pub driver : Option AdminStatsPayload → String
driver none = "memory"
driver (some payload) = get_or payload.storage_driver "memory"

-- `Math.max(n, 1)`
unfoldable pub at_least_one : Num → Num
at_least_one nan = nan
at_least_one (infinite true) = int 1
at_least_one (infinite false) = infinite false
at_least_one (frac true n d) = int 1
at_least_one (frac false n d) = if leb n (ℕ.suc d) then int 1 else frac false n d

-- the gauges of the overview are always full
unfoldable pub full_gauge : Num → UsageGauge
unfolding at_least_one
full_gauge count = record { used = count; limit = at_least_one count; percent = int 1 }

snapshot : Option AdminStatsPayload → List (String × Cell)
snapshot stats =
    ("Users", number (stat (λ p. p.user_count) stats))
    ∷ ("Active Connectors", number (stat (λ p. p.active_connectors) stats))
    ∷ ("Storage Driver", text (driver stats))
    ∷ ("Uptime (s)", number (stat (λ p. p.uptime_seconds) stats))
    ∷ ("Signup Success", number (total "signup_success" stats))
    ∷ ("Download Clicks", number (total "download_click" stats))
    ∷ []

runtime_pairs : Option SystemStatusPayload → List (String × Cell)
runtime_pairs status =
    (
      "Pending Requests",
      series (
          (runtime (λ r. r.pending_requests) status, " / ")
          ∷ (runtime (λ r. r.max_pending_global) status, "")
          ∷ []),
    )
    ∷ ("Queue Depth", number (runtime (λ r. r.queue_depth_total) status))
    ∷ (
      "Latency p50 / p95",
      series (
          (runtime (λ r. r.p50_latency_ms) status, "ms / ")
          ∷ (runtime (λ r. r.p95_latency_ms) status, "ms")
          ∷ []),
    )
    ∷ ("Error Rate", text (format_percent (error_rate status)))
    ∷ []

gauges : Option AdminStatsPayload → List (String × Cell)
unfolding full_gauge gauge_card
gauges stats =
    gauge_card "Routes" (some (full_gauge (stat (λ p. p.route_count) stats)))
    ∷ gauge_card "Connectors" (some (full_gauge (stat (λ p. p.connector_count) stats)))
    ∷ gauge_card "Tenants" (some (full_gauge (stat (λ p. p.tenant_count) stats)))
    ∷ []

unfoldable pub view : Page OverviewData → List Panel
unfolding gauges snapshot runtime_pairs
view s =
    if s.loading
    then record { title = "Overview"; actions = []; children = loading_line ∷ [] } ∷ []
    else if truthy s.error
    then record { title = "Overview"; actions = "Retry" ∷ []; children = error_line s.error ∷ [] }
      ∷ []
    else record { title = ""; actions = []; children = pairs (gauges s.content.stats) ∷ [] }
      ∷ record {
        title = "Global Snapshot";
        actions = "Refresh" ∷ [];
        children = pairs (snapshot s.content.stats) ∷ [];
      }
      ∷ record {
        title = "Runtime";
        actions = [];
        children = pairs (runtime_pairs s.content.status) ∷ [];
      }
      ∷ []
