-- ===== src/Tests/Site.antt =====
-- A gateway that answers every request of the web frontend, and one that refuses every request.
use proxer.Base.{ℕ, suc, String, true, none, some, [], ◌∷◌}
use proxer.Number.{int}
use proxer.Effect.{Thrown, api_error, ok, fail}
use proxer.Effect.Run.{Server}
use proxer.Web.Types
use proxer.Web.Types.{
  User, Tenant, AuthMeResponse, DashboardPayload, AdminStatsPayload, SystemStatusPayload, Plan,
  TenantEnvironment, PublicDownloadsPayload, Shape, Of,
}

abbrev pub ann : User
ann = record {
  username = "ann";
  role = "tenant_admin";
  tenant_id = some "acme";
  status = some "active";
}

abbrev pub root : User
root = record { username = "root"; role = "super_admin"; tenant_id = none; status = none }

abbrev pub acme : Tenant
acme = record { id = "acme"; name = "Acme"; route_count = some (int 2) }

abbrev pub beta : Tenant
beta = record { id = "beta"; name = "Beta"; route_count = none }

abbrev pub ann_session : AuthMeResponse
ann_session = record { user = ann; tenants = acme ∷ [] }

abbrev pub root_session : AuthMeResponse
root_session = record { user = root; tenants = beta ∷ acme ∷ [] }

abbrev pub staging : TenantEnvironment
staging = record {
  scheme = "https";
  host = "10.0.0.7";
  default_port = int 8443;
  variables = some (("REGION", "eu") ∷ []);
}

abbrev pub plan_at : String → ℕ → Plan
plan_at id order = record {
  id = id;
  name = id;
  description = none;
  max_routes = int 5;
  max_connectors = int 2;
  max_rps = int 10;
  max_monthly_gb = int 50;
  tls_enabled = true;
  price_monthly_usd = some (int 9);
  price_annual_usd = none;
  public_order = some (int order);
}

abbrev pub answer : (t : Shape) → Of t
answer Types.me_payload = ann_session
answer Types.dashboard = record {
  plan_id = none;
  gauges = none;
  status = none;
  routes = none;
  connectors = none;
}
answer Types.stats = record {
  user_count = none;
  tenant_count = none;
  route_count = none;
  connector_count = none;
  active_connectors = none;
  totals = none;
  storage_driver = none;
  uptime_seconds = none;
}
answer Types.system_status = record { gateway_status = none; storage_driver = none; runtime = none }
answer Types.users = some (root ∷ ann ∷ [])
answer Types.tenants = some (beta ∷ acme ∷ [])
answer Types.plans = none
answer Types.certificates = none
answer Types.incidents = none
answer Types.routes = none
answer Types.connectors = none
answer Types.command = none
answer Types.secret = none
answer Types.environment = staging
answer Types.public_plans = some (plan_at "pro" 2 ∷ plan_at "free" 1 ∷ [])
answer Types.downloads = record {
  available = none;
  release_url = none;
  release_notes_url = none;
  checksums_url = none;
  message = none;
  downloads = none;
}
answer Types.message = tt
answer Types.nothing = tt

-- counts the requests
abbrev pub site : Server Shape Of ℕ
site t r n = (ok (answer t), suc n)

abbrev pub denied : Thrown
denied = api_error "Forbidden" 403

abbrev pub refusing : Server Shape Of ℕ
refusing t r n = (fail denied, suc n)

abbrev pub expired : Thrown
expired = api_error "Session expired" 401

abbrev pub expiring : Server Shape Of ℕ
expiring t r n = (fail expired, suc n)
