-- ===== src/Web/Types.antt =====
-- The interfaces of web/src/App.tsx and web/src/workspace/WorkspaceApp.tsx. A field marked `?` is
-- an `Option`. A payload is taken to have the type that its `api<T>` call names, except that a list
-- which the code guards by `?? []` may be missing.
use proxer.Base.{String, Bool, Option, List}
use proxer.Number.{Num}
use proxer.Effect.{Prog}

pub record User : Type 0 where
  pub username : String
  pub role : String
  pub tenant_id : Option String
  pub status : Option String

pub record Tenant : Type 0 where
  pub id : String
  pub name : String
  pub route_count : Option Num

pub record AuthMeResponse : Type 0 where
  pub user : User
  pub tenants : List Tenant

pub record UsageGauge : Type 0 where
  pub used : Num
  pub limit : Num
  pub percent : Num

pub record RouteView : Type 0 where
  pub tenant_id : String
  pub id : String
  pub connector_id : Option String
  pub max_rps : Option Num
  pub connected : Option Bool
  pub public_url : Option String

pub record ConnectorView : Type 0 where
  pub id : String
  pub tenant_id : String
  pub name : Option String
  pub connected : Option Bool
  pub agent_id : Option String
  pub last_seen : Option String

pub record Gauges : Type 0 where
  pub routes : Option UsageGauge
  pub connectors : Option UsageGauge
  pub traffic : Option UsageGauge

pub record DashboardStatus : Type 0 where
  pub routes_active : Option Num
  pub routes_degraded : Option Num
  pub connectors_online : Option Num
  pub connectors_offline : Option Num
  pub blocked_requests_month : Option Num

-- `plan_id` is `plan?.id`
pub record DashboardPayload : Type 0 where
  pub plan_id : Option String
  pub gauges : Option Gauges
  pub status : Option DashboardStatus
  pub routes : Option (List RouteView)
  pub connectors : Option (List ConnectorView)

-- `totals` is `funnel_analytics?.totals`
pub record AdminStatsPayload : Type 0 where
  pub user_count : Option Num
  pub tenant_count : Option Num
  pub route_count : Option Num
  pub connector_count : Option Num
  pub active_connectors : Option Num
  pub totals : Option (List (String × Num))
  pub storage_driver : Option String
  pub uptime_seconds : Option Num

pub record RuntimeStatus : Type 0 where
  pub active_sessions : Option Num
  pub pending_requests : Option Num
  pub max_pending_global : Option Num
  pub queue_depth_total : Option Num
  pub p50_latency_ms : Option Num
  pub p95_latency_ms : Option Num
  pub error_rate : Option Num

-- `gateway_status` is `gateway?.status`, `storage_driver` is `storage?.driver`
pub record SystemStatusPayload : Type 0 where
  pub gateway_status : Option String
  pub storage_driver : Option String
  pub runtime : Option RuntimeStatus

pub record Incident : Type 0 where
  pub id : String
  pub severity : String
  pub source : String
  pub message : String
  pub created_at : String

pub record Plan : Type 0 where
  pub id : String
  pub name : String
  pub description : Option String
  pub max_routes : Num
  pub max_connectors : Num
  pub max_rps : Num
  pub max_monthly_gb : Num
  pub tls_enabled : Bool
  pub price_monthly_usd : Option Num
  pub price_annual_usd : Option Num
  pub public_order : Option Num

pub record TlsCertificate : Type 0 where
  pub id : String
  pub hostname : String
  pub active : Bool
  pub expires_at : Option String

pub record TenantEnvironment : Type 0 where
  pub scheme : String
  pub host : String
  pub default_port : Num
  pub variables : Option (List (String × String))

pub record DownloadEntry : Type 0 where
  pub platform : String
  pub label : String
  pub file_name : String
  pub url : String
  pub size_bytes : Option Num

pub record PublicDownloadsPayload : Type 0 where
  pub available : Option Bool
  pub release_url : Option String
  pub release_notes_url : Option String
  pub checksums_url : Option String
  pub message : Option String
  pub downloads : Option (List DownloadEntry)

pub record PublicAnalyticsEvent : Type 0 where
  pub event : String
  pub plan_id : Option String
  pub billing : Option String
  pub platform : Option String
  pub file_name : Option String
  pub outcome : Option String

-- The types `T` of the calls `api<T>(…)` and `requestJSON<T>(…)`.
pub data Shape : Type 0 where
  me_payload dashboard stats system_status users tenants plans : Shape
  certificates incidents routes connectors command secret environment : Shape
  public_plans downloads message nothing : Shape

abbrev pub Of : Shape → Type 0
Of me_payload = AuthMeResponse
Of dashboard = DashboardPayload
Of stats = AdminStatsPayload
Of system_status = SystemStatusPayload
Of users = Option (List User)
Of tenants = Option (List Tenant)
Of plans = Option (List Plan)
Of certificates = Option (List TlsCertificate)
Of incidents = Option (List Incident)
Of routes = Option (List RouteView)
Of connectors = Option (List ConnectorView)
Of command = Option String
Of secret = Option String
Of environment = TenantEnvironment
Of public_plans = Option (List Plan)
Of downloads = PublicDownloadsPayload
Of message = Unit {0}
Of nothing = Unit {0}

-- `ApiClient`: an asynchronous action of a component whose state is `S`.
abbrev pub Action : Type 0 → Type 0
Action S = Prog Shape Of S (Unit {0})
