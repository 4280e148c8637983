-- ===== src/Effect/Settle/Laws.antt =====
-- Whenever nothing runs any more, the flag is lowered.
use proxer.Base.{List, [], ◌∷◌, ◌++◌, ◌⊎◌, inl, inr, All, All-append}
use proxer.Effect.{Result, ok, fail, Ask, Replies, Pick, Prog, done, throw, calls, pending}
use proxer.Effect.Safe.{Answers, AllowedPick}
use proxer.Effect.Pool.{
  Machine, Step, start, reply, settles, Reach, here, next, advance, AllSafe, advance-keeps,
  advance-Safe, split_middle, join_middle, reply-Safe, settles-Safe,
}
use proxer.Effect.Settle.{
  Clears, lowers, later, on_reply, on_first, beside, handed, Settles, keeps, clears, behind,
  replied,
}

module _ {A : Type 0} (T : A → Type 0) where
  abbrev pub Any : List A → Type 0
  Any [] = ⊥
  Any (x ∷ xs) = T x ⊎ Any xs

  Any-left : (xs ys : List A) → Any xs → Any (xs ++ ys)
  Any-left (x ∷ xs) ys (inl h) = inl h
  Any-left (x ∷ xs) ys (inr h) = inr (Any-left xs ys h)
  Any-left [] ys h = absurd h

  Any-right : (xs ys : List A) → Any ys → Any (xs ++ ys)
  Any-right [] ys h = h
  Any-right (x ∷ xs) ys h = inr (Any-right xs ys h)

  Any-split : (xs ys : List A) → Any (xs ++ ys) → Any xs ⊎ Any ys
  Any-split [] ys h = inr h
  Any-split (x ∷ xs) ys (inl h) = inl (inl h)
  Any-split (x ∷ xs) ys (inr h) = elim (Any-split xs ys h) [ inl l ↦ inl (inr l) | inr r ↦ inr r ]

All-map :
    {A : Type 0} {T U : A → Type 0} (f : (a : A) → T a → U a) (xs : List A) → All T xs → All U xs
All-map f [] h = tt
All-map f (x ∷ xs) (h, k) = (f x h, All-map f xs k)

-- a component in the state `s` that has just started `p`
abbrev pub opened :
    {Shape : Type 0} {Of : Shape → Type 0} {S : Type 0}
    → S
    → Prog Shape Of S (Unit {0})
    → Machine Shape Of S
opened s p = record { state = (advance p s).0; tasks = (advance p s).1 }

-- a task that has ended
abbrev pub IsOver :
    {Shape : Type 0} {Of : Shape → Type 0} {S A : Type 0} → Prog Shape Of S A → Type 0
IsOver (done a) = Unit {0}
IsOver (throw e) = Unit {0}
IsOver _ = ⊥

module _ {Shape : Type 0} {Of : Shape → Type 0} {S : Type 0} (Q : S → Type 0)
    (Allowed : Answers Shape Of) where
  abbrev AllSettle : List (Prog Shape Of S (Unit {0})) → Type 0
  AllSettle = All (Settles Q Allowed)

  abbrev SomeClears : List (Prog Shape Of S (Unit {0})) → Type 0
  SomeClears = Any (Clears Q Allowed)

  -- the flag is lowered, or some task will lower it
  abbrev Due : S → List (Prog Shape Of S (Unit {0})) → Type 0
  Due s tasks = Q s ⊎ SomeClears tasks

  settled : (tasks : List (Prog Shape Of S (Unit {0}))) → AllSafe Q Allowed tasks → AllSettle tasks
  settled = All-map keeps

  advance-Clears :
      (s : S) (p : Prog Shape Of S (Unit {0}))
      → Clears Q Allowed p
      → AllSettle (advance p s).1 × Due (advance p s).0 (advance p s).1
  advance-Clears s p (lowers g p' q h) = (
    settled _ (advance-Safe Q Allowed (g s) p' h),
    inl (advance-keeps Q Allowed (g s) p' h (q s)),
  )
  advance-Clears s p (later g p' h) = advance-Clears (g s) p' h
  advance-Clears s p (on_reply asks k h l) =
      ((clears _ (on_reply asks k h l), tt), inr (inl (on_reply asks k h l)))
  advance-Clears s p (on_first asks groups k h) =
      ((clears _ (on_first asks groups k h), tt), inr (inl (on_first asks groups k h)))
  advance-Clears s p (beside a b h l) =
      let (t, d) = advance-Clears (advance a s).0 b l in
      (
        All-append (Settles Q Allowed) _ _ t (settled _ (advance-Safe Q Allowed s a h)),
        elim d [ inl q ↦ inl q | inr c ↦ inr (Any-left (Clears Q Allowed) _ _ c) ],
      )
  advance-Clears s p (handed a b h l) =
      let (t, d) = advance-Clears s a h in
      let first = advance a s in
      (
        All-append (Settles Q Allowed) _ _ (settled _ (advance-Safe Q Allowed first.0 b l)) t,
        elim d [
          | inl q ↦ inl (advance-keeps Q Allowed first.0 b l q)
          | inr c ↦ inr (Any-right (Clears Q Allowed) (advance b first.0).1 first.1 c)
        ],
      )

  advance-Settles :
      (s : S) (p : Prog Shape Of S (Unit {0}))
      → Settles Q Allowed p
      → AllSettle (advance p s).1 × (Q s → Due (advance p s).0 (advance p s).1)
  advance-Settles s p (keeps p' h) =
      (settled _ (advance-Safe Q Allowed s p h), λ q. inl (advance-keeps Q Allowed s p h q))
  advance-Settles s p (clears p' h) = let (t, d) = advance-Clears s p h in (t, λ q. d)
  advance-Settles s p (behind g p' keep h) =
      let (t, d) = advance-Settles (g s) p' h in (t, λ q. d (keep s q))
  advance-Settles s p (replied asks k h l) = ((replied asks k h l, tt), λ q. inl q)

  reply-Clears :
      (asks : List (Ask Shape)) (k : Result (Replies Shape Of asks) → Prog Shape Of S (Unit {0}))
      (x : Result (Replies Shape Of asks))
      → Allowed asks x
      → Clears Q Allowed (calls asks k)
      → Clears Q Allowed (k x)
  reply-Clears asks k (ok x) y (on_reply asks' k' h l) = h x y
  reply-Clears asks k (fail e) y (on_reply asks' k' h l) = l e

  reply-Settles :
      (asks : List (Ask Shape)) (k : Result (Replies Shape Of asks) → Prog Shape Of S (Unit {0}))
      (x : Result (Replies Shape Of asks))
      → Allowed asks x
      → Settles Q Allowed (calls asks k)
      → Settles Q Allowed (k x)
  reply-Settles asks k x y (keeps p h) = keeps _ (reply-Safe Q Allowed asks k x y h)
  reply-Settles asks k x y (clears p h) = clears _ (reply-Clears asks k x y h)
  reply-Settles asks k (ok x) y (replied asks' k' h l) = h x y
  reply-Settles asks k (fail e) y (replied asks' k' h l) = l e

  module _ (asks : List (Ask Shape)) (groups : List (List (Ask Shape)))
      (k : Pick Shape Of (asks ∷ groups) → Prog Shape Of S (Unit {0}))
      (x : Pick Shape Of (asks ∷ groups)) (y : AllowedPick Shape Of Allowed (asks ∷ groups) x) where
    first-Clears : Clears Q Allowed (pending asks groups k) → Clears Q Allowed (k x)
    first-Clears (on_first asks' groups' k' h) = h x y

    first-Settles : Settles Q Allowed (pending asks groups k) → Settles Q Allowed (k x)
    first-Settles (keeps p h) = keeps _ (settles-Safe Q Allowed asks groups k x y h)
    first-Settles (clears p h) = clears _ (first-Clears h)

  place :
      (s : S) (before ts after : List (Prog Shape Of S (Unit {0})))
      → Due s ts
      → Due s (before ++ (ts ++ after))
  place s before ts after (inl q) = inl q
  place s before ts after (inr c) =
      inr
        (Any-right (Clears Q Allowed) before (ts ++ after) (Any-left (Clears Q Allowed) ts after c))

  -- the task `t` goes on as `p`
  go_on :
      (s : S) (before after : List (Prog Shape Of S (Unit {0}))) (t p : Prog Shape Of S (Unit {0}))
      → (Settles Q Allowed t → Settles Q Allowed p)
      → (Clears Q Allowed t → Clears Q Allowed p)
      → Due s (before ++ t ∷ after)
      → AllSettle (before ++ t ∷ after)
      → Due (advance p s).0 (before ++ ((advance p s).1 ++ after))
        × AllSettle (before ++ ((advance p s).1 ++ after))
  go_on s before after t p f g d h =
      let (l, m, r) = split_middle (Settles Q Allowed) before t after h in
      let (ts, due) = advance-Settles s p (f m) in
      (
        elim d [
          | inl q ↦ place (advance p s).0 before (advance p s).1 after (due q)
          | inr c ↦ elim (Any-split (Clears Q Allowed) before (t ∷ after) c) [
            | inl b ↦ inr (Any-left (Clears Q Allowed) before _ b)
            | inr (inl now) ↦
                place (advance p s).0 before (advance p s).1 after (advance-Clears s p (g now)).1
            | inr (inr a) ↦ inr (
                Any-right (Clears Q Allowed) before _
                  (Any-right (Clears Q Allowed) (advance p s).1 after a))
          ]
        ],
        join_middle (Settles Q Allowed) before (advance p s).1 after l ts r,
      )

  over-Clears : (p : Prog Shape Of S (Unit {0})) → IsOver p → Clears Q Allowed p → ⊥
  over-Clears p o (lowers g p' q h) = o
  over-Clears p o (later g p' h) = o
  over-Clears p o (on_reply asks k h l) = o
  over-Clears p o (on_first asks groups k h) = o
  over-Clears p o (beside a b h l) = o
  over-Clears p o (handed a b h l) = o

  not_over : (tasks : List (Prog Shape Of S (Unit {0}))) → All IsOver tasks → SomeClears tasks → ⊥
  not_over [] h c = c
  not_over (p ∷ tasks) (h, k) (inl c) = over-Clears p h c
  not_over (p ∷ tasks) (h, k) (inr c) = not_over tasks k c

  module _ (Starts : S → Prog Shape Of S (Unit {0}) → Type 0)
      (starts-Settles : (s : S) (p : Prog Shape Of S (Unit {0}))
        → Starts s p
        → Settles Q Allowed p) where
    Step-due :
        {a b : Machine Shape Of S}
        → Step Starts Allowed a b
        → Due a.state a.tasks × AllSettle a.tasks
        → Due b.state b.tasks × AllSettle b.tasks
    Step-due (start s tasks p h) (d, k) =
        let (ts, due) = advance-Settles s p (starts-Settles s p h) in
        (
          elim d [
            | inl q ↦ elim (due q) [
              | inl q' ↦ inl q'
              | inr c ↦ inr (Any-right (Clears Q Allowed) tasks _ c)
            ]
            | inr c ↦ inr (Any-left (Clears Q Allowed) tasks _ c)
          ],
          All-append (Settles Q Allowed) tasks (advance p s).1 k ts,
        )
    Step-due (reply s before after asks k x y) (d, h) =
        go_on s before after (calls asks k) (k x) (reply-Settles asks k x y)
          (reply-Clears asks k x y) d h
    Step-due (settles s before after asks groups k x y) (d, h) =
        go_on s before after (pending asks groups k) (k x) (first-Settles asks groups k x y)
          (first-Clears asks groups k x y) d h

    Reach-due :
        {m b : Machine Shape Of S}
        → Due m.state m.tasks × AllSettle m.tasks
        → Reach Starts Allowed m b
        → Due b.state b.tasks × AllSettle b.tasks
    Reach-due h here = h
    Reach-due h (next r st) = Step-due st (Reach-due h r)

    -- If every program that can be started settles the flag, then it is lowered whenever all tasks
    -- are over: in every history that a program which clears it has opened.
    pub Reach-settled :
        (s : S) (p : Prog Shape Of S (Unit {0})) (b : Machine Shape Of S)
        → Clears Q Allowed p
        → Reach Starts Allowed (opened s p) b
        → All IsOver b.tasks
        → Q b.state
    Reach-settled s p b c r o =
        let (ts, d) = advance-Clears s p c in
        elim (Reach-due (d, ts) r).0 [ inl q ↦ q | inr c' ↦ absurd (not_over b.tasks o c') ]
