-- ===== src/Web/Landing/Laws.antt =====
-- The landing page: the order of the plans, and replies that come after it was left.
use mathlib.Core.List.{Perm}
use mathlib.Core.List.Perm
use proxer.Base.{
  ℕ, ◌*◌, ◌≤◌, get_or, true, false, ◌≡◌, refl, subst, List, [], ◌∷◌, arith, Bool-cases, inl, inr,
}
use proxer.Number.{Num, int, frac, nan, infinite}
use proxer.Effect.{set}
use proxer.Effect.Safe.{Answers, Safe, safe_rules}
use proxer.Effect.Safe.Together.{together-Safe}
use proxer.Effect.Pool.{Machine, Reach, Reach-invariant, Reach-tasks, AllSafe, advance}
use proxer.Effect.Ends.{NoStarts}
use proxer.Web.Types.{Plan, Shape, Of, Action}
use proxer.Web.Landing.{
  LandingState, load_plans, load_downloads, if_mounted, load_all, unmount, num_le, before, insert,
  ordered_plans, order_of,
}

num_le_total : (a b : Num) → num_le a b ≡ false → num_le b a ≡ true
unfolding num_le
num_le_total (frac false n d) (frac false m e) h = ground arith
num_le_total (frac true n d) (frac true m e) h = ground arith
num_le_total (frac true n d) (frac false m e) h = ground arith
num_le_total (frac false n d) (frac true m e) h = refl
num_le_total (frac neg n d) nan h = refl
num_le_total (frac neg n d) (infinite b) h = refl
num_le_total nan b h = cc
num_le_total (infinite c) b h = cc

-- Each plan is before the next.
abbrev Sorted : List Plan → Type 0
Sorted [] = Unit {0}
Sorted (p ∷ []) = Unit {0}
Sorted (p ∷ q ∷ rest) = (before p q ≡ true) × Sorted (q ∷ rest)

insert_past :
    (p q : Plan) (rest : List Plan) → before p q ≡ false → insert p (q ∷ rest) ≡ q ∷ insert p rest
unfolding insert
insert_past p q rest e = rw e refl

insert_front :
    (p q : Plan) (rest : List Plan) → before p q ≡ true → insert p (q ∷ rest) ≡ p ∷ q ∷ rest
unfolding insert
insert_front p q rest e = rw e refl

Sorted-tail : (q : Plan) (rest : List Plan) → Sorted (q ∷ rest) → Sorted rest
Sorted-tail q [] a = tt
Sorted-tail q (r ∷ rest) (h, a) = a

insert_behind :
    (p q : Plan) (rest : List Plan)
    → before q p ≡ true
    → Sorted (q ∷ rest)
    → Sorted (insert p rest)
    → Sorted (q ∷ insert p rest)
unfolding insert
insert_behind p q [] h a b = (h, tt)
insert_behind p q (r ∷ rest) h (f, a) b = elim (Bool-cases (before p r)) [
  | inl e ↦ rw (insert_front p r rest e) (h, (e, a))
  | inr e ↦ rw (insert_past p r rest e) (f, subst Sorted (insert_past p r rest e) b)
]

insert-Sorted : (p : Plan) (plans : List Plan) → Sorted plans → Sorted (insert p plans)
unfolding insert
insert-Sorted p [] a = tt
insert-Sorted p (q ∷ rest) a = elim (Bool-cases (before p q)) [
  | inl e ↦ rw (insert_front p q rest e) (e, a)
  | inr e ↦ rw (insert_past p q rest e) (
      insert_behind p q rest (num_le_total (order_of p) (order_of q) e) a
        (insert-Sorted p rest (Sorted-tail q rest a)))
]

insert-perm : (p : Plan) (plans : List Plan) → Perm (insert p plans) (p ∷ plans)
unfolding insert
insert-perm p [] = Perm.refl _
insert-perm p (q ∷ rest) = elim (Bool-cases (before p q)) [
  | inl e ↦ rw e (Perm.refl _)
  | inr e ↦ rw e (Perm.trans (Perm.cons q (insert-perm p rest)) (Perm.swap p q rest))
]

-- `a ≤ b` of two fractions with a sign; nothing of what JSON does not write
abbrev pub IsAtMost : Num → Num → Type 0
IsAtMost (frac false n d) (frac false m e) = n * ℕ.suc e ≤ m * ℕ.suc d
IsAtMost (frac true n d) (frac true m e) = m * ℕ.suc d ≤ n * ℕ.suc e
IsAtMost (frac true n d) (frac false m e) = Unit {0}
IsAtMost (frac false n d) (frac true m e) = (n ≡ 0) × (m ≡ 0)
IsAtMost _ _ = Unit {0}

-- no plan has a larger public order than the next, where a plan without one has 0
abbrev pub Ascending : List Plan → Type 0
Ascending [] = Unit {0}
Ascending (p ∷ []) = Unit {0}
Ascending (p ∷ q ∷ rest) =
    IsAtMost (get_or p.public_order (int 0)) (get_or q.public_order (int 0)) × Ascending (q ∷ rest)

num_le-IsAtMost : (a b : Num) → num_le a b ≡ true → IsAtMost a b
unfolding num_le
num_le-IsAtMost (frac false n d) (frac false m e) h = ground arith
num_le-IsAtMost (frac true n d) (frac true m e) h = ground arith
num_le-IsAtMost (frac true n d) (frac false m e) h = tt
num_le-IsAtMost (frac false n d) (frac true m e) h = (ground arith, ground arith)
num_le-IsAtMost (frac false n d) nan h = tt
num_le-IsAtMost (frac true n d) nan h = tt
num_le-IsAtMost (frac false n d) (infinite b) h = tt
num_le-IsAtMost (frac true n d) (infinite b) h = tt
num_le-IsAtMost nan b h = tt
num_le-IsAtMost (infinite c) b h = tt

Sorted-Ascending : (plans : List Plan) → Sorted plans → Ascending plans
Sorted-Ascending [] h = tt
Sorted-Ascending (p ∷ []) h = tt
Sorted-Ascending (p ∷ q ∷ rest) (h, k) =
    (num_le-IsAtMost (order_of p) (order_of q) h, Sorted-Ascending (q ∷ rest) k)

ordered_plans-Sorted : (plans : List Plan) → Sorted (ordered_plans plans)
unfolding ordered_plans
ordered_plans-Sorted [] = tt
ordered_plans-Sorted (p ∷ plans) =
    insert-Sorted p (ordered_plans plans) (ordered_plans-Sorted plans)

ordered_plans-perm : (plans : List Plan) → Perm (ordered_plans plans) plans
unfolding ordered_plans
ordered_plans-perm [] = Perm.refl _
ordered_plans-perm (p ∷ plans) =
    Perm.trans (insert-perm p (ordered_plans plans)) (Perm.cons p (ordered_plans-perm plans))

-- The plans of the pricing section are the plans that were loaded, each as often as it was loaded,
-- and no plan stands directly behind one with a larger public order, where a plan without one has 0
-- and the orders are numbers that JSON can write.
pub ordered_plans_lem :
    (plans : List Plan) → Ascending (ordered_plans plans) × Perm (ordered_plans plans) plans
ordered_plans_lem plans =
    (Sorted-Ascending (ordered_plans plans) (ordered_plans-Sorted plans), ordered_plans-perm plans)

abbrev pub AnyReply : Answers Shape Of
AnyReply asks x = Unit {0}

-- what is left of an action behind its first setters
abbrev after_sets : Action LandingState → Action LandingState
after_sets (set g p) = after_sets p
after_sets p = p

module _ (s : LandingState) (left : s.mounted ≡ false) where
  abbrev Same : LandingState → Type 0
  Same t = t ≡ s

  guarded_keeps :
      (g : LandingState → LandingState) (t : LandingState) → Same t → Same (if_mounted g t)
  guarded_keeps g t e = rw e (rw left refl)

  plans_keep : Safe Same AnyReply (after_sets load_plans)
  unfolding load_plans
  plans_keep = search (safe_rules, guarded_keeps) depth 14

  downloads_keep : Safe Same AnyReply (after_sets load_downloads)
  unfolding load_downloads
  downloads_keep = search (safe_rules, guarded_keeps) depth 14

  loads_keep : (t : LandingState) → AllSafe Same AnyReply (advance load_all t).1
  unfolding load_all
  loads_keep t = (together-Safe Shape Of AnyReply _ _ plans_keep downloads_keep, tt)

-- When the landing page is left at any point of its loading, with both requests open, one or none, no
-- reply and no failure changes its state from then on.
pub left_page_frozen :
    (t : LandingState) (m n : Machine Shape Of LandingState)
    → Reach NoStarts AnyReply
        (record { state = (advance load_all t).0; tasks = (advance load_all t).1 })
        m
    → Reach NoStarts AnyReply (record { state = unmount m.state; tasks = m.tasks }) n
    → n.state ≡ unmount m.state
left_page_frozen t m n r l =
    let s = unmount m.state in
    let tasks =
      Reach-tasks (Same s refl) NoStarts AnyReply (λ u p h. elim h [ ]) (loads_keep s refl t) r in
    (Reach-invariant (Same s refl) NoStarts AnyReply (λ u p h. elim h [ ]) (refl, tasks) l).0
