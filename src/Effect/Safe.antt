-- ===== src/Effect/Safe.antt =====
-- What every state setter of a program keeps: the rules by which the handlers are read.
pub mod Together
use proxer.Base.{List, [], ◌∷◌, ◌++◌, ◌⊎◌, inl, inr, Bool, true, false, if◌then◌else◌}
use proxer.Effect.{
  Thrown, Result, ok, fail, Ask, Replies, Prog, done, throw, set, calls, pending, spawn, Pick,
  split, detach, ◌>>=◌, try_catch, finally, together,
}

-- What replies the server and the network may give to a group of requests.
abbrev pub Answers : (Shape : Type 0) → (Shape → Type 0) → Type 1
Answers Shape Of = (asks : List (Ask Shape)) → Result (Replies Shape Of asks) → Type 0

-- the reply to the group that settles first is allowed
abbrev pub AllowedPick :
    (Shape : Type 0) (Of : Shape → Type 0)
    → Answers Shape Of
    → (groups : List (List (Ask Shape))) → Pick Shape Of groups
    → Type 0
AllowedPick Shape Of Allowed [] x = Unit {0}
AllowedPick Shape Of Allowed (asks ∷ groups) (inl r) = Allowed asks r
AllowedPick Shape Of Allowed (asks ∷ groups) (inr x) = AllowedPick Shape Of Allowed groups x

-- Every state setter that the program may call, on replies that are allowed, keeps `P`.
pub data Safe {Shape : Type 0} {Of : Shape → Type 0} {S : Type 0} (P : S → Type 0)
    (Allowed : Answers Shape Of) {A : Type 0} : Prog Shape Of S A → Type 0 where
  returns : (a : A) → Safe P Allowed (done a)
  throws : (e : Thrown) → Safe P Allowed (throw e)
  sets :
      (g : S → S) (p : Prog Shape Of S A)
      → ((s : S) → P s → P (g s))
      → Safe P Allowed p
      → Safe P Allowed (set g p)
  awaits :
      (asks : List (Ask Shape)) (k : Result (Replies Shape Of asks) → Prog Shape Of S A)
      → ((x : Replies Shape Of asks) → Allowed asks (ok x) → Safe P Allowed (k (ok x)))
      → ((e : Thrown) → Safe P Allowed (k (fail e)))
      → Safe P Allowed (calls asks k)
  waits :
      (asks : List (Ask Shape)) (groups : List (List (Ask Shape)))
      (k : Pick Shape Of (asks ∷ groups) → Prog Shape Of S A)
      → ((x : Pick Shape Of (asks ∷ groups))
          → AllowedPick Shape Of Allowed (asks ∷ groups) x
          → Safe P Allowed (k x))
      → Safe P Allowed (pending asks groups k)
  spawns :
      (p q : Prog Shape Of S A) → Safe P Allowed p → Safe P Allowed q → Safe P Allowed (spawn p q)

pub Safe-if :
    {Shape : Type 0} {Of : Shape → Type 0} {S : Type 0} {P : S → Type 0}
    {Allowed : Answers Shape Of} {A : Type 0} (b : Bool) (p q : Prog Shape Of S A)
    → Safe P Allowed p
    → Safe P Allowed q
    → Safe P Allowed (if b then p else q)
Safe-if true p q h k = h
Safe-if false p q h k = k

pub ruleset safe_rules = (returns, throws, sets, awaits, spawns, Safe-if)

module _ {Shape : Type 0} {Of : Shape → Type 0} {S : Type 0} {P : S → Type 0}
    {Allowed : Answers Shape Of} where
  pub detach-Safe :
      {A B : Type 0} (p : Prog Shape Of S A) → Safe P Allowed p → Safe P Allowed (detach {B = B} p)
  detach-Safe p (returns a) = throws _
  detach-Safe p (throws e) = throws _
  detach-Safe p (sets g q keep h) = sets g _ keep (detach-Safe q h)
  detach-Safe p (awaits asks k h l) =
      awaits asks _ (λ x y. detach-Safe (k (ok x)) (h x y)) (λ e. detach-Safe (k (fail e)) (l e))
  detach-Safe p (waits asks groups k h) = waits asks groups _ (λ x y. detach-Safe (k x) (h x y))
  detach-Safe p (spawns q r h l) = spawns _ _ (detach-Safe q h) (detach-Safe r l)

  pub bind-Safe :
      {A B : Type 0} (p : Prog Shape Of S A) (f : A → Prog Shape Of S B)
      → Safe P Allowed p
      → ((a : A) → Safe P Allowed (f a))
      → Safe P Allowed (p >>= f)
  bind-Safe p f (returns a) l = l a
  bind-Safe p f (throws e) l = throws e
  bind-Safe p f (sets g q keep h) l = sets g _ keep (bind-Safe q f h l)
  bind-Safe p f (awaits asks k h m) l =
      awaits asks _ (λ x y. bind-Safe (k (ok x)) f (h x y) l)
        (λ e. bind-Safe (k (fail e)) f (m e) l)
  bind-Safe p f (waits asks groups k h) l = waits asks groups _ (λ x y. bind-Safe (k x) f (h x y) l)
  bind-Safe p f (spawns q r h m) l = spawns _ _ (detach-Safe q h) (bind-Safe r f m l)

  pub try_catch-Safe :
      {A : Type 0} (p : Prog Shape Of S A) (f : Thrown → Prog Shape Of S A)
      → Safe P Allowed p
      → ((e : Thrown) → Safe P Allowed (f e))
      → Safe P Allowed (try_catch p f)
  try_catch-Safe p f (returns a) l = returns a
  try_catch-Safe p f (throws e) l = l e
  try_catch-Safe p f (sets g q keep h) l = sets g _ keep (try_catch-Safe q f h l)
  try_catch-Safe p f (awaits asks k h m) l =
      awaits asks _ (λ x y. try_catch-Safe (k (ok x)) f (h x y) l)
        (λ e. try_catch-Safe (k (fail e)) f (m e) l)
  try_catch-Safe p f (waits asks groups k h) l =
      waits asks groups _ (λ x y. try_catch-Safe (k x) f (h x y) l)
  try_catch-Safe p f (spawns q r h m) l = spawns _ _ h (try_catch-Safe r f m l)

  pub finally-Safe :
      {A : Type 0} (p : Prog Shape Of S A) (g : S → S)
      → Safe P Allowed p
      → ((s : S) → P s → P (g s))
      → Safe P Allowed (finally p g)
  finally-Safe p g (returns a) l = sets g _ l (returns a)
  finally-Safe p g (throws e) l = sets g _ l (throws e)
  finally-Safe p g (sets f q keep h) l = sets f _ keep (finally-Safe q g h l)
  finally-Safe p g (awaits asks k h m) l =
      awaits asks _ (λ x y. finally-Safe (k (ok x)) g (h x y) l)
        (λ e. finally-Safe (k (fail e)) g (m e) l)
  finally-Safe p g (waits asks groups k h) l =
      waits asks groups _ (λ x y. finally-Safe (k x) g (h x y) l)
  finally-Safe p g (spawns q r h m) l = spawns _ _ h (finally-Safe r g m l)
