-- ===== src/Web/Session/Inside/Laws.antt =====
-- A page behaves inside the app as it does alone, and its replies decide on the session.
use proxer.Base.{Bool, true, false, inl, ◌||◌, ◌≡◌, refl, List, [], ◌∷◌, if◌then◌else◌, none, arith}
use proxer.Effect.{Ask, Request, Prog, done, throw, set, calls, pending, spawn}
use proxer.Effect.Run.{Server, serve_all, run}
use proxer.Web.Page.{Page}
use proxer.Web.Types.{Shape, Of}
use proxer.Web.Session
use proxer.Web.Session.{AppState, set_me}
use proxer.Web.Session.Inside.{value_of, is_expired, api_all, run_inside, any_expired, expires}

-- the session, cleared where a reply was a 401
abbrev pub cleared : Bool → AppState → AppState
cleared b s = if b then set_me none s else s

cleared-cleared : (a b : Bool) (s : AppState) → cleared b (cleared a s) ≡ cleared (a || b) s
cleared-cleared true true s = refl
cleared-cleared true false s = refl
cleared-cleared false b s = refl

module _ {W : Type 0} (server : Server Shape Of W) where
  api_value :
      (t : Shape) (r : Request) (s : AppState) (w : W)
      → (value_of (run server (Session.api t r) s w).result ≡ (server t r w).0)
        × ((run server (Session.api t r) s w).state ≡ cleared (is_expired (server t r w).0) s)
        × ((run server (Session.api t r) s w).world ≡ (server t r w).1)
  unfolding Session.api
  api_value t r s w = (ground arith, ground arith, ground arith)

  api_all_lem :
      (asks : List (Ask Shape)) (s : AppState) (w : W)
      → api_all server asks s w ≡ (
        (serve_all server asks w).0,
        cleared (any_expired server asks w) s,
        (serve_all server asks w).1,
      )
  unfolding api_all
  api_all_lem [] s w = refl
  api_all_lem ((t, r) ∷ asks) s w =
      let (e, f, g) = api_value t r s w in
      rw (e, f, g)
        (rw (api_all_lem asks (cleared (is_expired (server t r w).0) s) (server t r w).1) (
          rw
            (cleared-cleared (is_expired (server t r w).0)
              (any_expired server asks (server t r w).1) s)
            refl))

  -- A page of the workspace does in the app what it does alone, with the replies that come through
  -- `api`: it ends with the same result, state and server, and the session is cleared if one of the
  -- replies was a 401, and is as it was otherwise.
  pub run_inside_lem :
      {P A : Type 0} (q : Prog Shape Of P A) (p : P) (s : AppState) (w : W)
      → run_inside server q p s w ≡ record {
        result = (run server q p w).result;
        page = (run server q p w).state;
        session = cleared (expires server q p w) s;
        world = (run server q p w).world;
      }
  unfolding run_inside
  run_inside_lem (done a) p s w = refl
  run_inside_lem (throw e) p s w = refl
  run_inside_lem (set g q) p s w = run_inside_lem q (g p) s w
  run_inside_lem (calls asks k) p s w =
      let x = serve_all server asks w in
      let c = any_expired server asks w in
      rw (api_all_lem asks s w) (
        rw (run_inside_lem (k x.0) p (cleared c s) x.1)
          (rw (cleared-cleared c (expires server (k x.0) p x.1) s) refl))
  run_inside_lem (pending asks groups k) p s w =
      let x = serve_all server asks w in
      let c = any_expired server asks w in
      rw (api_all_lem asks s w) (
        rw (run_inside_lem (k (inl x.0)) p (cleared c s) x.1)
          (rw (cleared-cleared c (expires server (k (inl x.0)) p x.1) s) refl))
  run_inside_lem (spawn a b) p s w =
      let first = run server b p w in
      let c = expires server b p w in
      rw (run_inside_lem b p s w) (
        rw (run_inside_lem a first.state (cleared c s) first.world)
          (rw (cleared-cleared c (expires server a first.state first.world) s) refl))
