-- ===== src/Effect/Safe/Together.antt =====
-- `together` keeps what both of its actions keep.
use proxer.Base.{List, [], ◌∷◌, ◌++◌, ◌⊎◌, inl, inr}
use proxer.Effect.{
  Result, ok, fail, Ask, Replies, Pick, either, only, split, Prog, done, throw, set, calls, pending,
  spawn, together,
}
use proxer.Effect.Safe.{
  Answers, AllowedPick, Safe, throws, sets, awaits, waits, spawns, detach-Safe,
}

module _ (Shape : Type 0) (Of : Shape → Type 0) (Allowed : Answers Shape Of) where
  -- what is allowed of one side of a list of groups
  abbrev AllowedSide :
      (gs hs : List (List (Ask Shape))) → Pick Shape Of gs ⊎ Pick Shape Of hs → Type 0
  AllowedSide gs hs (inl x) = AllowedPick Shape Of Allowed gs x
  AllowedSide gs hs (inr y) = AllowedPick Shape Of Allowed hs y

  AllowedSide-inr :
      (asks : List (Ask Shape)) (gs hs : List (List (Ask Shape)))
      (z : Pick Shape Of gs ⊎ Pick Shape Of hs)
      → AllowedSide gs hs z
      → AllowedSide (asks ∷ gs) hs (elim z [ inl y ↦ inl (inr y) | inr y ↦ inr y ])
  AllowedSide-inr asks gs hs (inl y) h = h
  AllowedSide-inr asks gs hs (inr y) h = h

  split-allowed :
      (gs hs : List (List (Ask Shape))) (x : Pick Shape Of (gs ++ hs))
      → AllowedPick Shape Of Allowed (gs ++ hs) x
      → AllowedSide gs hs (split Shape Of gs hs x)
  split-allowed [] hs x h = h
  split-allowed (asks ∷ gs) hs (inl x) h = h
  split-allowed (asks ∷ gs) hs (inr x) h =
      AllowedSide-inr asks gs hs (split Shape Of gs hs x) (split-allowed gs hs x h)

  module _ {S : Type 0} {P : S → Type 0} where
    of_result :
        {A : Type 0} (asks : List (Ask Shape))
        (k : Result (Replies Shape Of asks) → Prog Shape Of S A)
        (r : Result (Replies Shape Of asks))
        → Safe P Allowed (calls asks k)
        → Allowed asks r
        → Safe P Allowed (k r)
    of_result asks k (ok x) (awaits asks' k' h m) y = h x y
    of_result asks k (fail e) (awaits asks' k' h m) y = m e

    either-Safe :
        {A : Type 0} (gs hs : List (List (Ask Shape))) (f : Pick Shape Of gs → Prog Shape Of S A)
        (g : Pick Shape Of hs → Prog Shape Of S A) (z : Pick Shape Of gs ⊎ Pick Shape Of hs)
        → AllowedSide gs hs z
        → ((x : Pick Shape Of gs) → AllowedPick Shape Of Allowed gs x → Safe P Allowed (f x))
        → ((y : Pick Shape Of hs) → AllowedPick Shape Of Allowed hs y → Safe P Allowed (g y))
        → Safe P Allowed (either f g z)
    either-Safe gs hs f g (inl x) a h l = h x a
    either-Safe gs hs f g (inr y) a h l = l y a

    first-Safe :
        {A : Type 0} (asks : List (Ask Shape)) (hs : List (List (Ask Shape)))
        (f : Result (Replies Shape Of asks) → Prog Shape Of S A)
        (g : Pick Shape Of hs → Prog Shape Of S A) (x : Pick Shape Of (asks ∷ hs))
        → AllowedPick Shape Of Allowed (asks ∷ hs) x
        → ((r : Result (Replies Shape Of asks)) → Allowed asks r → Safe P Allowed (f r))
        → ((y : Pick Shape Of hs) → AllowedPick Shape Of Allowed hs y → Safe P Allowed (g y))
        → Safe P Allowed (either f g x)
    first-Safe asks hs f g (inl r) a h l = h r a
    first-Safe asks hs f g (inr y) a h l = l y a

    only-Safe :
        {A : Type 0} (asks : List (Ask Shape))
        (f : Result (Replies Shape Of asks) → Prog Shape Of S A) (x : Pick Shape Of (asks ∷ []))
        → AllowedPick Shape Of Allowed (asks ∷ []) x
        → ((r : Result (Replies Shape Of asks)) → Allowed asks r → Safe P Allowed (f r))
        → Safe P Allowed (only f x)
    only-Safe asks f (inl r) a h = h r a
    only-Safe asks f (inr x) a h = absurd x

    pub together-Safe :
        (p q : Prog Shape Of S (Unit {0}))
        → Safe P Allowed p
        → Safe P Allowed q
        → Safe P Allowed (together p q)
    together-Safe (done a) q h l = l
    together-Safe (throw e) q h l = spawns _ _ (detach-Safe q l) (throws e)
    together-Safe (set g p) q (sets _ _ keep h) l = sets g _ keep (together-Safe p q h l)
    together-Safe (spawn b p) q (spawns _ _ h m) l = spawns b _ h (together-Safe p q m l)
    together-Safe (calls is k) (done a) h l = h
    together-Safe (calls is k) (throw e) h l = spawns _ _ (detach-Safe (calls is k) h) (throws e)
    together-Safe (calls is k) (set g q) h (sets _ _ keep l) =
        sets g _ keep (together-Safe (calls is k) q h l)
    together-Safe (calls is k) (spawn b q) h (spawns _ _ l n) =
        spawns b _ l (together-Safe (calls is k) q h n)
    together-Safe (calls is k) (calls bs l) h n = waits is (bs ∷ []) _ (λ x y.
        first-Safe is (bs ∷ []) _ _ x y
          (λ r a. together-Safe (k r) (calls bs l) (of_result is k r h a) n)
          (λ z a.
            only-Safe bs _ z a (λ r b. together-Safe (calls is k) (l r) h (of_result bs l r n b))))
    together-Safe (calls is k) (pending bs hs l) h (waits _ _ _ n) = waits is (bs ∷ hs) _ (λ x y.
        first-Safe is (bs ∷ hs) _ _ x y
          (λ r a. together-Safe (k r) (pending bs hs l) (of_result is k r h a) (waits bs hs l n))
          (λ z a. together-Safe (calls is k) (l z) h (n z a)))
    together-Safe (pending is gs k) (done a) h l = h
    together-Safe (pending is gs k) (throw e) h l =
        spawns _ _ (detach-Safe (pending is gs k) h) (throws e)
    together-Safe (pending is gs k) (set g q) h (sets _ _ keep l) =
        sets g _ keep (together-Safe (pending is gs k) q h l)
    together-Safe (pending is gs k) (spawn b q) h (spawns _ _ l n) =
        spawns b _ l (together-Safe (pending is gs k) q h n)
    together-Safe (pending is gs k) (calls bs l) (waits _ _ _ h) n =
        waits is (gs ++ bs ∷ []) _ (λ x y.
          either-Safe (is ∷ gs) (bs ∷ []) _ _ (split Shape Of (is ∷ gs) (bs ∷ []) x)
            (split-allowed (is ∷ gs) (bs ∷ []) x y)
            (λ z a. together-Safe (k z) (calls bs l) (h z a) n)
            (λ z a. only-Safe bs _ z a (λ r b.
              together-Safe (pending is gs k) (l r) (waits is gs k h) (of_result bs l r n b))))
    together-Safe (pending is gs k) (pending bs hs l) (waits _ _ _ h) (waits _ _ _ n) =
        waits is (gs ++ bs ∷ hs) _ (λ x y.
          either-Safe (is ∷ gs) (bs ∷ hs) _ _ (split Shape Of (is ∷ gs) (bs ∷ hs) x)
            (split-allowed (is ∷ gs) (bs ∷ hs) x y)
            (λ z a. together-Safe (k z) (pending bs hs l) (h z a) (waits bs hs l n))
            (λ z a. together-Safe (pending is gs k) (l z) (waits is gs k h) (n z a)))
