-- ===== src/Web/Workspace.antt =====
-- `WorkspaceApp` of web/src/workspace: which page of the workspace is shown, and to whom. React runs
-- the effect `settle_page` after each render, before the user can act again.
pub mod Laws
use proxer.Base.{
  ℕ, String, Bool, true, false, ◌||◌, Option, none, some, List, [], ◌∷◌, map, nat_eq, if◌then◌else◌,
  ◌==◌, ◌≡◌, first, get_or,
}
use proxer.Web.Types.{AuthMeResponse, User}
use proxer.Web.Pages.Routes.{is_super}

pub data PageKey : Type 0 where
  dashboard routes connectors tenant_config : PageKey
  admin_overview admin_users admin_tenants admin_plans admin_tls admin_system : PageKey

-- the keys are texts in the source; here each has a number of its own
abbrev pub index : PageKey → ℕ
index dashboard = 0
index routes = 1
index connectors = 2
index tenant_config = 3
index admin_overview = 4
index admin_users = 5
index admin_tenants = 6
index admin_plans = 7
index admin_tls = 8
index admin_system = 9

abbrev pub same_page : PageKey → PageKey → Bool
same_page a b = nat_eq (index a) (index b)

-- `PAGE_META`
unfoldable pub page_meta : PageKey → String × String
page_meta dashboard = ("Tenant Dashboard", "Plan gauges, statuses, and usage.")
page_meta routes = ("Route Management", "Create and manage route forwarding rules.")
page_meta connectors = ("Connector Management", "Pair hosts and monitor connector status.")
page_meta tenant_config = ("Tenant Configuration", "Manage environment defaults for local targets.")
page_meta admin_overview = ("Super Admin Overview", "Global counts, usage and platform snapshot.")
page_meta admin_users = ("User Administration", "Create and update users across all tenants.")
page_meta admin_tenants = ("Tenant Administration", "Create tenants and assign subscription plans.")
page_meta admin_plans = ("Plan Management", "Control quotas and traffic caps for all plans.")
page_meta admin_tls = ("TLS Certificates", "Upload, activate, and remove TLS certificates.")
page_meta admin_system = ("System Status", "Health, incidents, queues, and runtime status.")

-- `SUPER_NAV`
unfoldable pub super_nav : List (PageKey × String)
super_nav =
    (admin_overview, "Overview")
    ∷ (admin_users, "Users")
    ∷ (admin_tenants, "Tenants")
    ∷ (admin_plans, "Plans")
    ∷ (admin_tls, "TLS")
    ∷ (admin_system, "System")
    ∷ (routes, "Routes")
    ∷ (connectors, "Connectors")
    ∷ (tenant_config, "Tenant Config")
    ∷ []

-- `TENANT_NAV`
unfoldable pub tenant_nav : List (PageKey × String)
tenant_nav =
    (dashboard, "Dashboard")
    ∷ (routes, "Routes")
    ∷ (connectors, "Connectors")
    ∷ (tenant_config, "Tenant Config")
    ∷ []

unfoldable pub nav_items : Bool → List (PageKey × String)
unfolding super_nav tenant_nav
nav_items super = if super then super_nav else tenant_nav

-- the first value of `page`
unfoldable pub initial_page : Bool → PageKey
initial_page super = if super then admin_overview else dashboard

-- `allowed.has(page)`
unfoldable pub allowed : List (PageKey × String) → PageKey → Bool
allowed [] page = false
allowed ((key, label) ∷ items) page = same_page key page || allowed items page

-- the effect on `navItems` and `page`
unfoldable pub settle_page : Bool → PageKey → PageKey
unfolding nav_items allowed
settle_page super page =
    if allowed (nav_items super) page
    then page
    else elim (nav_items super) [ [] ↦ page | (key, label) ∷ items ↦ key ]

-- The component that `content` renders.
pub data Content : Type 0 where
  tenant_dashboard_page routes_page connectors_page tenant_config_page : Content
  admin_overview_page admin_users_page admin_tenants_page : Content
  admin_plans_page admin_tls_page admin_system_page : Content

unfoldable pub content : PageKey → Content
content dashboard = tenant_dashboard_page
content routes = routes_page
content connectors = connectors_page
content tenant_config = tenant_config_page
content admin_overview = admin_overview_page
content admin_users = admin_users_page
content admin_tenants = admin_tenants_page
content admin_plans = admin_plans_page
content admin_tls = admin_tls_page
content admin_system = admin_system_page

-- What the shell shows: who is logged in, the buttons with the active one, title, and page.
pub record Shell : Type 0 where
  pub username : String
  pub role : String
  pub buttons : List (String × Bool)
  pub title : String
  pub subtitle : String
  pub body : Content

unfoldable pub shell : AuthMeResponse → PageKey → Shell
unfolding nav_items page_meta content
shell me page = record {
  username = me.user.username;
  role = me.user.role;
  buttons = map (λ item. (item.1, same_page item.0 page)) (nav_items (is_super me));
  title = (page_meta page).0;
  subtitle = (page_meta page).1;
  body = content page;
}
