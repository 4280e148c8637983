-- ===== src/Effect/Ends.antt =====
-- One program that runs alone: what holds of the state at its end, in whatever order the replies to
-- its requests come.
use mathlib.Core.List.{append-nil}
use proxer.Base.{List, [], ◌∷◌, ◌++◌, All, ◌≡◌, subst, inl, inr}
use proxer.Effect.{Result, Ask, Replies, Pick, Prog, done, throw, set, calls, pending, spawn}
use proxer.Effect.Safe.{Answers, AllowedPick}
use proxer.Effect.Run.{Server, serve_all}
use proxer.Effect.Pool.{Machine, Step, start, reply, settles, Reach, here, next, advance}
use proxer.Effect.Settle.Laws.{IsOver, opened}

-- nothing is started beside the program
pub data NoStarts {Shape : Type 0} {Of : Shape → Type 0} {S : Type 0} (s : S)
    : Prog Shape Of S (Unit {0}) → Type 0 where

module _ {Shape : Type 0} {Of : Shape → Type 0} {S : Type 0} (Q : S → Type 0)
    (Allowed : Answers Shape Of) where
  -- From the state `s` the program ends where `Q` holds, on all replies that are allowed and in every
  -- order; it leaves no other program running.
  abbrev pub Ends : Prog Shape Of S (Unit {0}) → S → Type 0
  Ends (done a) s = Q s
  Ends (throw e) s = Q s
  Ends (set g p) s = Ends p (g s)
  Ends (calls asks k) s = (x : Result (Replies Shape Of asks)) → Allowed asks x → Ends (k x) s
  Ends (pending asks groups k) s =
      (x : Pick Shape Of (asks ∷ groups))
      → AllowedPick Shape Of Allowed (asks ∷ groups) x
      → Ends (k x) s
  Ends (spawn p q) s = ⊥

  abbrev Alone : List (Prog Shape Of S (Unit {0})) → S → Type 0
  Alone [] s = ⊥
  Alone (p ∷ []) s = Ends p s
  Alone (p ∷ q ∷ tasks) s = ⊥

  advance-Alone :
      (p : Prog Shape Of S (Unit {0})) (s : S) → Ends p s → Alone (advance p s).1 (advance p s).0
  advance-Alone (done a) s h = h
  advance-Alone (throw e) s h = h
  advance-Alone (set g p) s h = advance-Alone p (g s) h
  advance-Alone (calls asks k) s h = h
  advance-Alone (pending asks groups k) s h = h
  advance-Alone (spawn p q) s h = absurd h

  -- the only task goes on as `p`
  go_on :
      (before : List (Prog Shape Of S (Unit {0}))) (t p : Prog Shape Of S (Unit {0}))
      (after : List (Prog Shape Of S (Unit {0}))) (s : S)
      → (Ends t s → Ends p s)
      → Alone (before ++ t ∷ after) s
      → Alone (before ++ ((advance p s).1 ++ after)) (advance p s).0
  go_on [] t p [] s f h = rw (append-nil (advance p s).1) (advance-Alone p s (f h))
  go_on [] t p (u ∷ after) s f h = absurd h
  go_on (b ∷ []) t p after s f h = absurd h
  go_on (b ∷ c ∷ before) t p after s f h = absurd h

  Step-Alone :
      {a b : Machine Shape Of S}
      → Step NoStarts Allowed a b
      → Alone a.tasks a.state
      → Alone b.tasks b.state
  Step-Alone (start s tasks p h) k = elim h [ ]
  Step-Alone (reply s before after asks k x y) h =
      go_on before (calls asks k) (k x) after s (λ e. e x y) h
  Step-Alone (settles s before after asks groups k x y) h =
      go_on before (pending asks groups k) (k x) after s (λ e. e x y) h

  Reach-Alone :
      {a b : Machine Shape Of S}
      → Reach NoStarts Allowed a b
      → Alone a.tasks a.state
      → Alone b.tasks b.state
  Reach-Alone here h = h
  Reach-Alone (next r st) h = Step-Alone st (Reach-Alone r h)

  over-Alone :
      (tasks : List (Prog Shape Of S (Unit {0}))) (s : S) → All IsOver tasks → Alone tasks s → Q s
  over-Alone [] s o h = absurd h
  over-Alone (done a ∷ []) s o h = h
  over-Alone (throw e ∷ []) s o h = h
  over-Alone (set g p ∷ []) s (o, k) h = absurd o
  over-Alone (calls asks f ∷ []) s (o, k) h = absurd o
  over-Alone (pending asks groups f ∷ []) s (o, k) h = absurd o
  over-Alone (spawn p q ∷ []) s (o, k) h = absurd o
  over-Alone (p ∷ q ∷ tasks) s o h = absurd h

  pub Ends-over :
      (p : Prog Shape Of S (Unit {0})) (s : S) (m : Machine Shape Of S)
      → Ends p s
      → Reach NoStarts Allowed (opened s p) m
      → All IsOver m.tasks
      → Q m.state
  Ends-over p s m h r o = over-Alone m.tasks m.state o (Reach-Alone r (advance-Alone p s h))

-- every reply is the one that the server gives
abbrev pub Served :
    {Shape : Type 0} {Of : Shape → Type 0} → Server Shape Of (Unit {0}) → Answers Shape Of
Served server asks x = (serve_all server asks tt).0 ≡ x

module _ {Shape : Type 0} {Of : Shape → Type 0} {S : Type 0} (Q : S → Type 0)
    (server : Server Shape Of (Unit {0})) where
  -- `F` of each group's reply, as the first one
  abbrev EachFirst : (groups : List (List (Ask Shape))) → (Pick Shape Of groups → Type 0) → Type 0
  EachFirst [] F = Unit {0}
  EachFirst (asks ∷ groups) F =
      F (inl (serve_all server asks tt).0) × EachFirst groups (λ x. F (inr x))

  -- `Q` at the end of each order of the replies
  abbrev pub EachOrder : Prog Shape Of S (Unit {0}) → S → Type 0
  EachOrder (done a) s = Q s
  EachOrder (throw e) s = Q s
  EachOrder (set g p) s = EachOrder p (g s)
  EachOrder (calls asks k) s = EachOrder (k (serve_all server asks tt).0) s
  EachOrder (pending asks groups k) s = EachFirst (asks ∷ groups) (λ x. EachOrder (k x) s)
  EachOrder (spawn p q) s = ⊥

  EachFirst-pick :
      (groups : List (List (Ask Shape))) (F : Pick Shape Of groups → Type 0)
      → EachFirst groups F
      → (x : Pick Shape Of groups) → AllowedPick Shape Of (Served server) groups x
      → F x
  EachFirst-pick [] F h x y = absurd x
  EachFirst-pick (asks ∷ groups) F (h, k) (inl r) y = subst (λ z. F (inl z)) y h
  EachFirst-pick (asks ∷ groups) F (h, k) (inr x) y = EachFirst-pick groups (λ z. F (inr z)) k x y

  pub EachOrder-Ends :
      (p : Prog Shape Of S (Unit {0})) (s : S) → EachOrder p s → Ends Q (Served server) p s
  EachOrder-Ends (done a) s h = h
  EachOrder-Ends (throw e) s h = h
  EachOrder-Ends (set g p) s h = EachOrder-Ends p (g s) h
  EachOrder-Ends (calls asks k) s h =
      λ x y. EachOrder-Ends (k x) s (subst (λ z. EachOrder (k z) s) y h)
  EachOrder-Ends (pending asks groups k) s h =
      λ x y. EachOrder-Ends (k x) s (EachFirst-pick (asks ∷ groups) (λ z. EachOrder (k z) s) h x y)
  EachOrder-Ends (spawn p q) s h = absurd h
