-- ===== src/Web/Landing/View.antt =====
-- The sections of `LandingPage` of web/src/App.tsx, with their texts. The plan cards and the downloads
-- are `plan_grid` and `download_section` of the parent.
use proxer.Base.{String, Bool, List, [], ◌∷◌, ◌++◌, Option, if◌then◌else◌, truthy}
use proxer.Web.Landing.{
  LandingState, Billing, monthly, annual, same_billing, PlanCard, plan_grid, DownloadGrid,
  download_section,
}

-- the text of a link and where it leads
abbrev pub Link : Type 0
Link = String × String

-- a heading and its text
abbrev pub Card : Type 0
Card = String × String

-- `me ? … : …`: the links in the header
unfoldable pub nav_actions : Bool → List Link
nav_actions logged_in =
    if logged_in
    then ("Open Workspace", "/app") ∷ []
    else ("Login", "/login") ∷ ("Start Free", "/signup") ∷ []

abbrev pub nav_links : List Link
nav_links =
    ("Features", "#features")
    ∷ ("Plans", "#pricing")
    ∷ ("Downloads", "#downloads")
    ∷ ("FAQ", "#faq")
    ∷ []

-- the two links of the hero and of the last section; `second` is the text of the second one
unfoldable pub call_to_action : Bool → String → List Link
call_to_action logged_in second =
    (if logged_in then ("Open Workspace", "/app") else ("Create Workspace", "/signup"))
    ∷ (second, "/login")
    ∷ []

pub record Hero : Type 0 where
  pub title : String
  pub actions : List Link
  pub proofs : List String
  pub terminal : List String

unfoldable pub hero : Bool → Hero
unfolding call_to_action
hero logged_in = record {
  title = "Ship local apps to the internet with control-plane discipline.";
  actions = call_to_action logged_in "Sign in";
  proofs =
      "Protocol scope: HTTP/HTTPS" ∷ "Multi-tenant isolation" ∷ "Docker Compose ready"
      ∷ "Request/response fidelity preserved" ∷ "Deterministic 4xx/5xx failure mapping"
      ∷ "Super-admin observability" ∷ [];
  terminal =
      "$ proxer-agent pair --token <pair_token>" ∷ "connector status: online"
      ∷ "route: /t/acme/api -> 127.0.0.1:3000" ∷ "tenant cap: 100 rps, 500 GB/month"
      ∷ "response: 200 OK (47 ms)" ∷ [];
}

-- `featureCards`
abbrev pub feature_cards : List Card
feature_cards =
    (
      "Connector-Based Routing",
      "Pair host agents once, then bind routes to connectors with explicit local target metadata.",
    )
    ∷ (
      "Tenant Isolation",
      "Route, connector, and access boundaries are tenant-scoped with role-aware controls.",
    )
    ∷ (
      "Traffic Governance",
      "Hard limits for RPS and monthly transfer keep usage deterministic under every plan.",
    )
    ∷ (
      "TLS + Cert Control",
      "Super admins manage certificates and active status from one control plane.",
    )
    ∷ ("Request Fidelity", "Methods, query, headers, cookies, and body are preserved end-to-end.")
    ∷ (
      "Local-First Deploy",
      "Run everything with Docker Compose and no external dependencies for day one.",
    )
    ∷ []

abbrev pub setup_steps : List Card
setup_steps =
    ("Create connector", "Generate a short-lived pairing command from the workspace.")
    ∷ (
      "Pair host agent",
      "Run the desktop agent on your machine and establish a secure connector session.",
    )
    ∷ ("Create route", "Bind public path to local target and start serving traffic instantly.")
    ∷ []

abbrev pub faq : List Card
faq =
    (
      "Does Proxer return responses from localhost back to callers?",
      "Yes. Gateway dispatches to connector agent, agent calls localhost app, and response is returned.",
    )
    ∷ (
      "Can I run it entirely local?",
      "Yes. The full stack runs with Docker Compose and supports native desktop agents.",
    )
    ∷ (
      "How are limits enforced?",
      "Plan caps and runtime limits are hard enforced with deterministic error responses.",
    )
    ∷ (
      "Can super admins control plans and certificates?",
      "Yes. Super admin pages include users, tenants, plans, TLS certificates, and system status.",
    )
    ∷ []

-- What a section shows above its content: the line while it loads, and its error.
abbrev pub notices : Bool → String → String → List String
notices loading line error =
    (if loading then line ∷ [] else []) ++ (if truthy error then error ∷ [] else [])

-- The pricing section: its toggle, with the class of each button, its notices and the plan cards.
pub record Pricing : Type 0 where
  pub toggle : List (String × String)
  pub notices : List String
  pub cards : List PlanCard

abbrev active_class : Billing → LandingState → String
active_class billing s = if same_billing s.billing billing then "active" else ""

unfoldable pub pricing_section : Bool → LandingState → Pricing
unfolding plan_grid
pricing_section logged_in s = record {
  toggle = ("Monthly", active_class monthly s) ∷ ("Annual", active_class annual s) ∷ [];
  notices = notices s.loading_plans "Loading plans..." s.plan_error;
  cards = plan_grid logged_in s;
}

-- The downloads section: its notices, and the downloads where there are none.
unfoldable pub downloads_view : LandingState → List String × Option DownloadGrid
unfolding download_section
downloads_view s =
    (notices s.loading_downloads "Loading downloads..." s.download_error, download_section s)
