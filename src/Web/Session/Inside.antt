-- ===== src/Web/Session/Inside.antt =====
-- A page of the workspace inside the app: each of its requests goes through `api`, which clears the
-- session on a 401.
pub mod Laws
use proxer.Base.{Bool, true, false, inl, ◌||◌, List, [], ◌∷◌}
use proxer.Effect.{Result, ok, fail, Ask, Replies, Prog, done, throw, set, calls, pending, spawn}
use proxer.Effect.Run.{Server, both, serve_all, run}
use proxer.Web.Types.{Shape, Of}
use proxer.Web.Session
use proxer.Web.Session.{AppState}

pub record Inside (W P A : Type 0) : Type 0 where
  pub result : Result A
  pub page : P
  pub session : AppState
  pub world : W

abbrev pub value_of : {A : Type 0} → Result (A × Unit {0}) → Result A
value_of (ok (a, _)) = ok a
value_of (fail e) = fail e

abbrev pub is_expired : {A : Type 0} → Result A → Bool
is_expired (ok a) = false
is_expired (fail e) = Session.is_401 e

module _ {W : Type 0} (server : Server Shape Of W) where
  -- `Promise.all` of requests that are sent through `api`: the replies, and the session behind them
  unfoldable pub api_all :
      (asks : List (Ask Shape)) → AppState → W → Result (Replies Shape Of asks) × AppState × W
  unfolding Session.api
  api_all [] s w = (ok tt, s, w)
  api_all ((t, r) ∷ asks) s w =
      let o = run server (Session.api t r) s w in
      let (y, s', w') = api_all asks o.state o.world in (both (value_of o.result) y, s', w')

  -- a program of the page, run to its end in the app
  unfoldable pub run_inside : {P A : Type 0} → Prog Shape Of P A → P → AppState → W → Inside W P A
  unfolding api_all
  run_inside (done a) p s w = record { result = ok a; page = p; session = s; world = w }
  run_inside (throw e) p s w = record { result = fail e; page = p; session = s; world = w }
  run_inside (set g q) p s w = run_inside q (g p) s w
  run_inside (calls asks k) p s w = let (x, s', w') = api_all asks s w in run_inside (k x) p s' w'
  run_inside (pending asks groups k) p s w =
      let (x, s', w') = api_all asks s w in run_inside (k (inl x)) p s' w'
  run_inside (spawn a b) p s w =
      let first = run_inside b p s w in
      let rest = run_inside a first.page first.session first.world in
      record { result = first.result; page = rest.page; session = rest.session; world = rest.world }

  -- whether one of the replies is a 401
  abbrev pub any_expired : List (Ask Shape) → W → Bool
  any_expired [] w = false
  any_expired ((t, r) ∷ asks) w = let (x, w') = server t r w in is_expired x || any_expired asks w'

  -- whether one of the replies that the program gets is a 401
  abbrev pub expires : {P A : Type 0} → Prog Shape Of P A → P → W → Bool
  expires (done a) p w = false
  expires (throw e) p w = false
  expires (set g q) p w = expires q (g p) w
  expires (calls asks k) p w =
      let (x, w') = serve_all server asks w in any_expired asks w || expires (k x) p w'
  expires (pending asks groups k) p w =
      let (x, w') = serve_all server asks w in any_expired asks w || expires (k (inl x)) p w'
  expires (spawn a b) p w =
      let first = run server b p w in expires b p w || expires a first.state first.world
