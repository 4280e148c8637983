-- ===== src/Effect/Run.antt =====
-- A program run to its end against a server, when nothing else runs meanwhile, and when groups of
-- requests that are awaited together are answered in their order; what runs by itself goes on
-- after the end of the program. `sent` lists the requests in the
-- order in which they are answered.
use proxer.Base.{inl, List, [], ◌∷◌, ◌++◌}
use proxer.Effect.{
  Result, ok, fail, Request, Ask, Replies, Prog, done, throw, set, calls, pending, spawn,
}

pub record Outcome (W S A : Type 0) : Type 0 where
  pub result : Result A
  pub state : S
  pub world : W
  pub sent : List Request

-- What the server answers to a request, and the server's next state.
abbrev pub Server : (Shape : Type 0) → (Shape → Type 0) → Type 0 → Type 0
Server Shape Of W = (t : Shape) → Request → W → Result (Of t) × W

-- `Promise.all` of two replies; where both are rejections, the first one counts.
abbrev pub both : {A B : Type 0} → Result A → Result B → Result (A × B)
both (ok a) (ok b) = ok (a, b)
both (ok a) (fail e) = fail e
both (fail e) y = fail e

abbrev pub requests : {Shape : Type 0} → List (Ask Shape) → List Request
requests [] = []
requests ((t, r) ∷ asks) = r ∷ requests asks

module _ {Shape : Type 0} {Of : Shape → Type 0} {W : Type 0} (server : Server Shape Of W) where
  abbrev pub serve_all : (asks : List (Ask Shape)) → W → Result (Replies Shape Of asks) × W
  serve_all [] w = (ok tt, w)
  serve_all ((t, r) ∷ asks) w =
      let (x, w') = server t r w in let (y, w'') = serve_all asks w' in (both x y, w'')

  abbrev pub run : {S A : Type 0} → Prog Shape Of S A → S → W → Outcome W S A
  run (done a) s w = record { result = ok a; state = s; world = w; sent = [] }
  run (throw e) s w = record { result = fail e; state = s; world = w; sent = [] }
  run (set g p) s w = run p (g s) w
  run (calls asks k) s w =
      let (x, w') = serve_all asks w in
      let rest = run (k x) s w' in record rest { sent = requests asks ++ rest.sent }
  run (pending asks groups k) s w =
      let (x, w') = serve_all asks w in
      let rest = run (k (inl x)) s w' in record rest { sent = requests asks ++ rest.sent }
  run (spawn p q) s w =
      let first = run q s w in
      let rest = run p first.state first.world in
      record {
        result = first.result;
        state = rest.state;
        world = rest.world;
        sent = first.sent ++ rest.sent;
      }

  -- programs that are run one after the other, each to its end
  abbrev pub run_all : {S : Type 0} → List (Prog Shape Of S (Unit {0})) → S → W → S × W
  run_all [] s w = (s, w)
  run_all (p ∷ ps) s w = let o = run p s w in run_all ps o.state o.world
