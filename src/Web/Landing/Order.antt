-- ===== src/Web/Landing/Order.antt =====
-- The two requests of the landing page, answered in either order.
use proxer.Base.{◌≡◌, All, arith}
use proxer.Effect.Run.{Server, run}
use proxer.Effect.Pool.{Machine, Reach}
use proxer.Effect.Settle.Laws.{IsOver, opened}
use proxer.Effect.Ends.{NoStarts, Ends-over, EachOrder, Served, EachOrder-Ends}
use proxer.Web.Types.{Shape, Of}
use proxer.Web.Landing.{LandingState, load_plans, load_downloads, load_all}

module _ (server : Server Shape Of (Unit {0})) where
  load_all-EachOrder :
      (s : LandingState) → EachOrder (λ t. t ≡ (run server load_all s tt).state) server load_all s
  unfolding load_all load_plans load_downloads
  load_all-EachOrder s = (ground arith, (ground arith, tt))

-- It does not matter which of the two requests of the landing page is answered first, and whether they
-- succeed: once both have been answered the page is in the state that a run leaves in which the plans
-- are answered first.
pub load_all_order :
    (server : Server Shape Of (Unit {0})) (s : LandingState) (m : Machine Shape Of LandingState)
    → Reach NoStarts (Served server) (opened s load_all) m
    → All IsOver m.tasks
    → m.state ≡ (run server load_all s tt).state
load_all_order server s m r o =
    let Same : LandingState → Type 0 = λ t. t ≡ (run server load_all s tt).state in
    Ends-over Same (Served server) load_all s m
      (EachOrder-Ends Same server load_all s (load_all-EachOrder server s)) r o
