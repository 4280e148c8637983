-- ===== src/Web/Landing.antt =====
-- `LandingPage` of web/src/App.js: the public plans and downloads, and the billing toggle.
pub mod Laws
pub mod View
pub mod Order
use proxer.Base.{
  ℕ, suc, ◌*◌, String, Bool, true, false, not, ◌&&◌, Option, none, some, List, [], ◌∷◌, ◌++◌, map,
  get_or, or_else, leb, nat_eq, if◌then◌else◌, ◌==◌, ◌<>◌, truthy,
}
use proxer.Number.{Num, frac, int}
use proxer.Text.{to_lower_case}
use proxer.Effect.{get, Prog, ◌>>=◌, ◌>>◌, try_catch, finally, modify, all, together}
use proxer.Web.Types
use proxer.Web.Types.{
  Plan, PublicDownloadsPayload, DownloadEntry, PublicAnalyticsEvent, Shape, Of, Action,
}
use proxer.Web.Format.{to_error_message, format_number, format_binary_size}

pub data Billing : Type 0 where
  monthly annual : Billing

-- `mounted` is the variable of the effect that loads; `tracked` holds the events that were tracked.
pub record LandingState : Type 0 where
  pub plans : List Plan
  pub downloads : Option PublicDownloadsPayload
  pub loading_plans : Bool
  pub loading_downloads : Bool
  pub plan_error : String
  pub download_error : String
  pub billing : Billing
  pub mounted : Bool
  pub tracked : List PublicAnalyticsEvent

-- a setter behind `if (mounted)`
abbrev pub if_mounted : (LandingState → LandingState) → LandingState → LandingState
if_mounted g s = if s.mounted then g s else s

unfoldable pub load_plans : Action LandingState
unfolding to_error_message
load_plans =
    modify (λ s. record s { loading_plans = true; plan_error = "" })
    >> finally
        (try_catch
          (do
            (payload, _) ← all ((Types.public_plans, get "/api/public/plans") ∷ [])
            modify (if_mounted (λ s. record s { plans = get_or payload [] })))
          (λ e. modify (if_mounted (λ s. record s { plan_error = to_error_message e }))))
        (if_mounted (λ s. record s { loading_plans = false }))

unfoldable pub load_downloads : Action LandingState
unfolding to_error_message
load_downloads =
    modify (λ s. record s { loading_downloads = true; download_error = "" })
    >> finally
        (try_catch
          (do
            (payload, _) ← all ((Types.downloads, get "/api/public/downloads") ∷ [])
            modify (if_mounted (λ s. record s { downloads = some payload })))
          (λ e. modify (if_mounted (λ s. record s { download_error = to_error_message e }))))
        (if_mounted (λ s. record s { loading_downloads = false }))

-- `void Promise.all([loadPlans(), loadDownloads()])`
unfoldable pub load_all : Action LandingState
unfolding load_plans load_downloads
load_all = together load_plans load_downloads

abbrev pub blank_event : String → PublicAnalyticsEvent
blank_event name = record {
  event = name;
  plan_id = none;
  billing = none;
  platform = none;
  file_name = none;
  outcome = none;
}

-- what the effect does before it loads
unfoldable pub mount : LandingState → LandingState
mount s = record s { mounted = true; tracked = s.tracked ++ blank_event "landing_view" ∷ [] }

-- the effect's clean-up, when the page is left
abbrev pub unmount : LandingState → LandingState
unmount s = record s { mounted = false }

abbrev pub billing_name : Billing → String
billing_name monthly = "monthly"
billing_name annual = "annual"

abbrev pub same_billing : Billing → Billing → Bool
same_billing monthly monthly = true
same_billing annual annual = true
same_billing _ _ = false

abbrev pub toggle_event : Billing → PublicAnalyticsEvent
toggle_event next = record (blank_event "pricing_toggle") { billing = some (billing_name next) }

-- `handleBillingChange`
unfoldable pub handle_billing_change : Billing → LandingState → LandingState
handle_billing_change next s =
    if same_billing next s.billing
    then s
    else record s { billing = next; tracked = s.tracked ++ toggle_event next ∷ [] }

-- the buttons and links that are tracked: signing up (`header`, `hero` or `footer`), a plan, a download
pub data Click : Type 0 where
  signup_cta : String → Click
  plan_cta : Plan → Click
  download : DownloadEntry → Click

abbrev pub click_event : Billing → Click → PublicAnalyticsEvent
click_event billing (signup_cta place) = record (blank_event "signup_cta_click") {
  outcome = some place;
}
click_event billing (plan_cta plan) = record (blank_event "plan_cta_click") {
  plan_id = some plan.id;
  billing = some (billing_name billing);
}
click_event billing (download entry) = record (blank_event "download_click") {
  platform = some entry.platform;
  file_name = some entry.file_name;
}

-- a user who is logged in already is no sign-up
abbrev pub counts : Bool → Click → Bool
counts logged_in (download entry) = true
counts logged_in _ = not logged_in

unfoldable pub handle_click : Bool → Click → LandingState → LandingState
handle_click logged_in click s =
    if counts logged_in click
    then record s { tracked = s.tracked ++ click_event s.billing click ∷ [] }
    else s

-- `a <= b` on finite numbers; JSON has no others
unfoldable pub num_le : Num → Num → Bool
num_le (frac false n d) (frac false m e) = leb (n * suc e) (m * suc d)
num_le (frac true n d) (frac true m e) = leb (m * suc d) (n * suc e)
num_le (frac true n d) (frac false m e) = true
num_le (frac false n d) (frac true m e) = nat_eq n 0 && nat_eq m 0
num_le _ _ = true

-- `Number(plan.public_order ?? 0)`
abbrev pub order_of : Plan → Num
order_of plan = get_or plan.public_order (int 0)

abbrev pub before : Plan → Plan → Bool
before a b = num_le (order_of a) (order_of b)

-- JavaScript's sort is stable: a plan goes in front of the first that is not before it.
pub insert : Plan → List Plan → List Plan
unfolding num_le
insert plan [] = plan ∷ []
insert plan (next ∷ rest) = if before plan next then plan ∷ next ∷ rest else next ∷ insert plan rest

-- `orderedPlans`
unfoldable pub ordered_plans : List Plan → List Plan
unfolding insert
ordered_plans [] = []
ordered_plans (plan ∷ plans) = insert plan (ordered_plans plans)

-- The card of a plan: its emphasis, price, lines, and where its button leads.
pub record PlanCard : Type 0 where
  pub highlighted : Bool
  pub name : String
  pub price : String
  pub cadence : String
  pub subprice : String
  pub lines : List String
  pub link : String
  pub label : String

unfoldable pub plan_card : Bool → Billing → Plan → PlanCard
unfolding format_number to_lower_case
plan_card logged_in billing plan = record {
  highlighted = to_lower_case plan.id == "pro";
  name = plan.name;
  price =
      "$"
      <> format_number
          (if same_billing billing annual then plan.price_annual_usd else plan.price_monthly_usd);
  cadence = if same_billing billing annual then "year" else "month";
  subprice = or_else plan.description "Managed routing plan";
  lines =
      (format_number (some plan.max_routes) <> " routes")
      ∷ (format_number (some plan.max_connectors) <> " connectors")
      ∷ (format_number (some plan.max_rps) <> " requests / sec")
      ∷ (format_number (some plan.max_monthly_gb) <> " GB transfer / month")
      ∷ (if plan.tls_enabled then "TLS certificates included" else "No TLS certificate management")
      ∷ [];
  link = if logged_in then "/app" else "/signup";
  label = if logged_in then "Use Plan" else "Start Free";
}

-- what the pricing section shows
unfoldable pub plan_grid : Bool → LandingState → List PlanCard
unfolding ordered_plans plan_card
plan_grid logged_in s =
    if not s.loading_plans && not (truthy s.plan_error)
    then map (plan_card logged_in s.billing) (ordered_plans s.plans)
    else []

-- What the downloads section shows: the binaries or a text, and the links of the release.
pub record DownloadGrid : Type 0 where
  pub cards : List (String × String × String × String)
  pub notice : String
  pub links : List (String × String)

download_card : DownloadEntry → String × String × String × String
unfolding format_binary_size
download_card entry = (entry.label, entry.file_name, format_binary_size entry.size_bytes, entry.url)

abbrev link_to : String → Option String → List (String × String)
link_to label url = if truthy (get_or url "") then (label, get_or url "") ∷ [] else []

abbrev download_grid : PublicDownloadsPayload → DownloadGrid
download_grid p = record {
  cards = if get_or p.available false then map download_card (get_or p.downloads []) else [];
  notice =
      if get_or p.available false then "" else or_else p.message "Downloads are not available yet.";
  links =
      link_to "Release page" p.release_url
      ++ link_to "Checksums" p.checksums_url
      ++ link_to "Release notes" p.release_notes_url;
}

unfoldable pub download_section : LandingState → Option DownloadGrid
unfolding download_card
download_section s =
    if not s.loading_downloads && not (truthy s.download_error)
    then some (
        get_or (elim s.downloads [ none ↦ none | some p ↦ some (download_grid p) ])
          (record { cards = []; notice = "Downloads are not available yet."; links = [] }))
    else none
