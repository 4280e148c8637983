-- ===== src/Tests/Landing.antt =====
-- The landing page: plans out of order, and a page that is left while it loads.
use mathlib.Core.List.{Perm}
use proxer.Base.{inl, inr, true, ◌≡◌, refl, none, [], ◌∷◌}
use proxer.Effect.{ok, fail, error}
use proxer.Effect.Run.{Server, run}
use proxer.Effect.Settle.Laws
use proxer.Effect.Pool.{Machine, Reach, here, next, reply, settles, advance}
use proxer.Effect.Ends.{NoStarts, Served}
use proxer.Web.Types
use proxer.Web.Types.{Shape, Of}
use proxer.Web.Landing.{LandingState, monthly, load_all, ordered_plans, unmount}
use proxer.Web.Landing.Order.{load_all_order}
use proxer.Web.Landing.Laws.{Ascending, ordered_plans_lem, AnyReply, left_page_frozen}
use proxer.Tests.Site.{plan_at, answer}

ordered_plans_example :
    Ascending (ordered_plans (plan_at "pro" 2 ∷ plan_at "free" 1 ∷ []))
    × Perm
        (ordered_plans (plan_at "pro" 2 ∷ plan_at "free" 1 ∷ []))
        (plan_at "pro" 2 ∷ plan_at "free" 1 ∷ [])
ordered_plans_example = ordered_plans_lem (plan_at "pro" 2 ∷ plan_at "free" 1 ∷ [])

abbrev loading : LandingState
loading = record {
  plans = [];
  downloads = none;
  loading_plans = true;
  loading_downloads = true;
  plan_error = "";
  download_error = "";
  billing = monthly;
  mounted = true;
  tracked = [];
}

-- the page once it loads
abbrev opened : Machine Shape Of LandingState
opened = record { state = (advance load_all loading).0; tasks = (advance load_all loading).1 }

-- the downloads fail after the page was left
late :
    (n : Machine Shape Of LandingState) × Reach NoStarts AnyReply
      (record { state = unmount opened.state; tasks = opened.tasks })
      n
unfolding load_all
late = (_, next here (settles _ [] [] _ _ _ (inr (inl (fail (error "network error")))) tt))

left_page_example : late.0.state ≡ unmount opened.state
left_page_example = left_page_frozen loading opened late.0 here late.1

-- the plans are refused
abbrev served : Server Shape Of (Unit {0})
served Types.public_plans r w = (fail (error "network error"), w)
served t r w = (ok (answer t), w)

-- the downloads come first
both :
    (n : Machine Shape Of LandingState) × Reach NoStarts
      (Served served)
      (Laws.opened loading load_all)
      n
unfolding load_all
both = (
  _,
  next (next here (settles _ [] [] _ _ _ (inr (inl (ok (answer Types.downloads, tt)))) refl))
      (reply _ [] [] _ _ (fail (error "network error")) refl),
)

load_all_order_example : both.0.state ≡ (run served load_all loading tt).state
unfolding both
load_all_order_example = load_all_order served loading both.0 both.1 (tt, tt)
