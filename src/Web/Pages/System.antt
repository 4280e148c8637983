-- ===== src/Web/Pages/System.antt =====
-- `AdminSystemPage` of web/src/workspace.
use proxer.Base.{String, Option, none, some, List, [], ◌∷◌, map, get_or}
use proxer.Effect.{get, Ask, Replies}
use proxer.Web.Types.{SystemStatusPayload, Incident, Shape, Of, Action}
use proxer.Web.Format.{format_percent, format_date_time}
use proxer.Web.Pages.Overview.{runtime, error_rate}
use proxer.Web.View.{Cell, Panel, badge_of, text, number, series, pairs, table, rows_or, guarded}
use proxer.Web.Page.{Page, load_page}

pub record SystemData : Type 0 where
  pub status : Option SystemStatusPayload
  pub incidents : List Incident

abbrev pub asks : List (Ask Shape)
asks =
    (Shape.system_status, get "/api/admin/system-status")
    ∷ (Shape.incidents, get "/api/admin/incidents?limit=100")
    ∷ []

abbrev pub store : Replies Shape Of asks → SystemData → SystemData
store (status_payload, (incident_payload, _)) d = record {
  status = some status_payload;
  incidents = get_or incident_payload [];
}

unfoldable pub load : Action (Page SystemData)
unfolding load_page
load = load_page asks store

abbrev pub gateway_status : Option SystemStatusPayload → String
gateway_status none = "unknown"
gateway_status (some payload) = get_or payload.gateway_status "unknown"

abbrev pub storage_driver : Option SystemStatusPayload → String
storage_driver none = "memory"
storage_driver (some payload) = get_or payload.storage_driver "memory"

incident_row : (String → Option String) → Incident → List Cell
unfolding badge_of format_date_time
incident_row dates incident =
    badge_of incident.severity
    ∷ text incident.source
    ∷ text incident.message
    ∷ text (format_date_time dates (some incident.created_at))
    ∷ []

status_pairs : Option SystemStatusPayload → List (String × Cell)
status_pairs status =
    ("Gateway", text (gateway_status status))
    ∷ ("Storage", text (storage_driver status))
    ∷ ("Active Sessions", number (runtime (λ r. r.active_sessions) status))
    ∷ ("Pending Requests", number (runtime (λ r. r.pending_requests) status))
    ∷ (
      "Latency p50/p95",
      series (
          (runtime (λ r. r.p50_latency_ms) status, "ms / ")
          ∷ (runtime (λ r. r.p95_latency_ms) status, "ms")
          ∷ []),
    )
    ∷ ("Error Rate", text (format_percent (error_rate status)))
    ∷ []

unfoldable pub view : (String → Option String) → Page SystemData → List Panel
unfolding incident_row status_pairs
view dates s =
    record {
      title = "System Status";
      actions = "Refresh" ∷ [];
      children = guarded s.loading s.error (pairs (status_pairs s.content.status));
    }
    ∷ record {
      title = "Incidents";
      actions = [];
      children =
          table ("Severity" ∷ "Source" ∷ "Message" ∷ "Created" ∷ [])
            (rows_or "No incidents." (map (incident_row dates) s.content.incidents))
          ∷ [];
    }
    ∷ []
