-- ===== src/Effect/Pool.antt =====
-- Programs of one component that run at the same time: a user's action starts one, and the replies
-- to the requests that are awaited come in any order. What holds of the state in each such history.
use proxer.Base.{List, [], ◌∷◌, ◌++◌, All, All-append}
use proxer.Effect.{
  Result, ok, fail, Ask, Replies, Pick, Prog, done, throw, set, calls, pending, spawn,
}
use proxer.Effect.Safe.{Answers, AllowedPick, Safe, returns, throws, sets, awaits, waits, spawns}

module _ {Shape : Type 0} {Of : Shape → Type 0} {S : Type 0} where
  -- runs the code up to the next wait: the state, the program and what it has spawned
  abbrev pub advance : Prog Shape Of S (Unit {0}) → S → S × List (Prog Shape Of S (Unit {0}))
  advance (done a) s = (s, done a ∷ [])
  advance (throw e) s = (s, throw e ∷ [])
  advance (set g p) s = advance p (g s)
  advance (calls asks k) s = (s, calls asks k ∷ [])
  advance (pending asks groups k) s = (s, pending asks groups k ∷ [])
  advance (spawn p q) s =
      let first = advance p s in let rest = advance q first.0 in (rest.0, rest.1 ++ first.1)

pub record Machine (Shape : Type 0) (Of : Shape → Type 0) (S : Type 0) : Type 0 where
  pub state : S
  pub tasks : List (Prog Shape Of S (Unit {0}))

-- `Starts s p`: in a component whose state is `s`, the user or the browser may start `p`. A task that
-- waits goes on when the reply comes (`reply`), or when the first of several does (`settles`).
pub data Step {Shape : Type 0} {Of : Shape → Type 0} {S : Type 0}
    (Starts : S → Prog Shape Of S (Unit {0}) → Type 0) (Allowed : Answers Shape Of)
    : Machine Shape Of S → Machine Shape Of S → Type 0 where
  start :
      (s : S) (tasks : List (Prog Shape Of S (Unit {0}))) (p : Prog Shape Of S (Unit {0}))
      → Starts s p
      → Step Starts Allowed
          (record { state = s; tasks = tasks })
          (record { state = (advance p s).0; tasks = tasks ++ (advance p s).1 })
  reply :
      (s : S) (before after : List (Prog Shape Of S (Unit {0}))) (asks : List (Ask Shape))
      (k : Result (Replies Shape Of asks) → Prog Shape Of S (Unit {0}))
      (x : Result (Replies Shape Of asks))
      → Allowed asks x
      → Step Starts Allowed
          (record { state = s; tasks = before ++ calls asks k ∷ after })
          (record { state = (advance (k x) s).0; tasks = before ++ ((advance (k x) s).1 ++ after) })
  settles :
      (s : S) (before after : List (Prog Shape Of S (Unit {0}))) (asks : List (Ask Shape))
      (groups : List (List (Ask Shape)))
      (k : Pick Shape Of (asks ∷ groups) → Prog Shape Of S (Unit {0}))
      (x : Pick Shape Of (asks ∷ groups))
      → AllowedPick Shape Of Allowed (asks ∷ groups) x
      → Step Starts Allowed
          (record { state = s; tasks = before ++ pending asks groups k ∷ after })
          (record { state = (advance (k x) s).0; tasks = before ++ ((advance (k x) s).1 ++ after) })

pub data Reach {Shape : Type 0} {Of : Shape → Type 0} {S : Type 0}
    (Starts : S → Prog Shape Of S (Unit {0}) → Type 0) (Allowed : Answers Shape Of)
    (m : Machine Shape Of S) : Machine Shape Of S → Type 0 where
  here : Reach Starts Allowed m m
  next :
      {a b : Machine Shape Of S}
      → Reach Starts Allowed m a
      → Step Starts Allowed a b
      → Reach Starts Allowed m b

module _ {Shape : Type 0} {Of : Shape → Type 0} {S : Type 0} (P : S → Type 0)
    (Allowed : Answers Shape Of) where
  abbrev pub AllSafe : List (Prog Shape Of S (Unit {0})) → Type 0
  AllSafe = All (Safe P Allowed)

  pub advance-keeps :
      (s : S) (p : Prog Shape Of S (Unit {0})) → Safe P Allowed p → P s → P (advance p s).0
  advance-keeps s p (returns a) q = q
  advance-keeps s p (throws e) q = q
  advance-keeps s p (sets g p' keep h) q = advance-keeps (g s) p' h (keep s q)
  advance-keeps s p (awaits asks k h l) q = q
  advance-keeps s p (waits asks groups k h) q = q
  advance-keeps s p (spawns a b h l) q = advance-keeps (advance a s).0 b l (advance-keeps s a h q)

  pub advance-Safe :
      (s : S) (p : Prog Shape Of S (Unit {0})) → Safe P Allowed p → AllSafe (advance p s).1
  advance-Safe s p (returns a) = (returns a, tt)
  advance-Safe s p (throws e) = (throws e, tt)
  advance-Safe s p (sets g p' keep h) = advance-Safe (g s) p' h
  advance-Safe s p (awaits asks k h l) = (awaits asks k h l, tt)
  advance-Safe s p (waits asks groups k h) = (waits asks groups k h, tt)
  advance-Safe s p (spawns a b h l) =
      All-append (Safe P Allowed) (advance b (advance a s).0).1 (advance a s).1
        (advance-Safe (advance a s).0 b l) (advance-Safe s a h)

  pub reply-Safe :
      (asks : List (Ask Shape)) (k : Result (Replies Shape Of asks) → Prog Shape Of S (Unit {0}))
      (x : Result (Replies Shape Of asks))
      → Allowed asks x
      → Safe P Allowed (calls asks k)
      → Safe P Allowed (k x)
  reply-Safe asks k (ok x) y (awaits asks' k' h l) = h x y
  reply-Safe asks k (fail e) y (awaits asks' k' h l) = l e

  pub settles-Safe :
      (asks : List (Ask Shape)) (groups : List (List (Ask Shape)))
      (k : Pick Shape Of (asks ∷ groups) → Prog Shape Of S (Unit {0}))
      (x : Pick Shape Of (asks ∷ groups))
      → AllowedPick Shape Of Allowed (asks ∷ groups) x
      → Safe P Allowed (pending asks groups k)
      → Safe P Allowed (k x)
  settles-Safe asks groups k x y (waits asks' groups' k' h) = h x y

module _ {ℓ} {A : Type 0} (T : A → Type ℓ) where
  pub split_middle :
      (before : List A) (p : A) (after : List A)
      → All T (before ++ p ∷ after)
      → All T before × T p × All T after
  split_middle [] p after (h, k) = (tt, h, k)
  split_middle (q ∷ qs) p after (h, k) = let (a, b, c) = split_middle qs p after k in ((h, a), b, c)

  pub join_middle :
      (before middle after : List A)
      → All T before
      → All T middle
      → All T after
      → All T (before ++ (middle ++ after))
  join_middle before middle after h k l =
      All-append T before (middle ++ after) h (All-append T middle after k l)

module _ {Shape : Type 0} {Of : Shape → Type 0} {S : Type 0} (P : S → Type 0)
    (Starts : S → Prog Shape Of S (Unit {0}) → Type 0) (Allowed : Answers Shape Of) where
  go_on :
      (s : S) (before after : List (Prog Shape Of S (Unit {0}))) (p : Prog Shape Of S (Unit {0}))
      → AllSafe P Allowed before
      → Safe P Allowed p
      → AllSafe P Allowed after
      → AllSafe P Allowed (before ++ ((advance p s).1 ++ after))
  go_on s before after p l m r =
      join_middle (Safe P Allowed) before (advance p s).1 after l (advance-Safe P Allowed s p m) r

  -- Safe tasks stay safe, whether or not `P` holds of the state.
  Step-tasks :
      {a b : Machine Shape Of S}
      → ((p : Prog Shape Of S (Unit {0})) → Starts a.state p → Safe P Allowed p)
      → Step Starts Allowed a b
      → AllSafe P Allowed a.tasks
      → AllSafe P Allowed b.tasks
  Step-tasks f (start s tasks p h) k =
      All-append (Safe P Allowed) tasks (advance p s).1 k (advance-Safe P Allowed s p (f p h))
  Step-tasks f (reply s before after asks k x y) h =
      let (l, m, r) = split_middle (Safe P Allowed) before _ after h in
      go_on s before after (k x) l (reply-Safe P Allowed asks k x y m) r
  Step-tasks f (settles s before after asks groups k x y) h =
      let (l, m, r) = split_middle (Safe P Allowed) before _ after h in
      go_on s before after (k x) l (settles-Safe P Allowed asks groups k x y m) r

  Step-keeps :
      {a b : Machine Shape Of S}
      → ((p : Prog Shape Of S (Unit {0})) → Starts a.state p → Safe P Allowed p)
      → Step Starts Allowed a b
      → P a.state
      → AllSafe P Allowed a.tasks
      → P b.state
  Step-keeps f (start s tasks p h) q k = advance-keeps P Allowed s p (f p h) q
  Step-keeps f (reply s before after asks k x y) q h =
      let (l, m, r) = split_middle (Safe P Allowed) before _ after h in
      advance-keeps P Allowed s (k x) (reply-Safe P Allowed asks k x y m) q
  Step-keeps f (settles s before after asks groups k x y) q h =
      let (l, m, r) = split_middle (Safe P Allowed) before _ after h in
      advance-keeps P Allowed s (k x) (settles-Safe P Allowed asks groups k x y m) q

  pub Reach-tasks :
      {m b : Machine Shape Of S}
      → ((s : S) (p : Prog Shape Of S (Unit {0})) → Starts s p → Safe P Allowed p)
      → AllSafe P Allowed m.tasks
      → Reach Starts Allowed m b
      → AllSafe P Allowed b.tasks
  Reach-tasks f h here = h
  Reach-tasks f h (next r st) = Step-tasks (f _) st (Reach-tasks f h r)

  -- If every program that can be started where `P` holds is `Safe`, `P` holds after every history.
  pub Reach-invariant :
      {m b : Machine Shape Of S}
      → ((s : S) (p : Prog Shape Of S (Unit {0})) → Starts s p → P s → Safe P Allowed p)
      → P m.state × AllSafe P Allowed m.tasks
      → Reach Starts Allowed m b
      → P b.state × AllSafe P Allowed b.tasks
  Reach-invariant f h here = h
  Reach-invariant f h (next r st) =
      let (q, k) = Reach-invariant f h r in
      (Step-keeps (λ p u. f _ p u q) st q k, Step-tasks (λ p u. f _ p u q) st k)
