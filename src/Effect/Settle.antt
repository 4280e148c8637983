-- ===== src/Effect/Settle.antt =====
-- Flags such as `loading`, which an action raises at its start and lowers at its end: what is lowered
-- whenever nothing runs any more, in each history of overlapping actions.
pub mod Laws
use proxer.Base.{List, [], ◌∷◌, ◌⊎◌, Bool, true, false, if◌then◌else◌}
use proxer.Effect.{
  Thrown, Result, ok, fail, Ask, Replies, Pick, Prog, done, throw, set, calls, pending, spawn,
  try_catch, finally, detach, ◌>>=◌,
}
use proxer.Effect.Safe.{
  Answers, AllowedPick, Safe, returns, throws, sets, awaits, waits, spawns, try_catch-Safe,
  finally-Safe, bind-Safe, detach-Safe,
}

module _ {Shape : Type 0} {Of : Shape → Type 0} {S : Type 0} (Q : S → Type 0)
    (Allowed : Answers Shape Of) {A : Type 0} where
  -- A program that has `Q` hold when it ends: on each way some setter brings `Q` about, and the setters
  -- behind it keep it.
  pub data Clears : Prog Shape Of S A → Type 0 where
    lowers :
        (g : S → S) (p : Prog Shape Of S A)
        → ((s : S) → Q (g s))
        → Safe Q Allowed p
        → Clears (set g p)
    later : (g : S → S) (p : Prog Shape Of S A) → Clears p → Clears (set g p)
    on_reply :
        (asks : List (Ask Shape)) (k : Result (Replies Shape Of asks) → Prog Shape Of S A)
        → ((x : Replies Shape Of asks) → Allowed asks (ok x) → Clears (k (ok x)))
        → ((e : Thrown) → Clears (k (fail e)))
        → Clears (calls asks k)
    on_first :
        (asks : List (Ask Shape)) (groups : List (List (Ask Shape)))
        (k : Pick Shape Of (asks ∷ groups) → Prog Shape Of S A)
        → ((x : Pick Shape Of (asks ∷ groups))
            → AllowedPick Shape Of Allowed (asks ∷ groups) x
            → Clears (k x))
        → Clears (pending asks groups k)
    beside : (p q : Prog Shape Of S A) → Safe Q Allowed p → Clears q → Clears (spawn p q)
    handed : (p q : Prog Shape Of S A) → Clears p → Safe Q Allowed q → Clears (spawn p q)

  -- A program that keeps `Q`, except that from some point on it clears.
  pub data Settles : Prog Shape Of S A → Type 0 where
    keeps : (p : Prog Shape Of S A) → Safe Q Allowed p → Settles p
    clears : (p : Prog Shape Of S A) → Clears p → Settles p
    behind :
        (g : S → S) (p : Prog Shape Of S A)
        → ((s : S) → Q s → Q (g s))
        → Settles p
        → Settles (set g p)
    replied :
        (asks : List (Ask Shape)) (k : Result (Replies Shape Of asks) → Prog Shape Of S A)
        → ((x : Replies Shape Of asks) → Allowed asks (ok x) → Settles (k (ok x)))
        → ((e : Thrown) → Settles (k (fail e)))
        → Settles (calls asks k)

module _ {Shape : Type 0} {Of : Shape → Type 0} {S : Type 0} {Q : S → Type 0}
    {Allowed : Answers Shape Of} {A : Type 0} where
  -- `finally` with a setter that lowers the flag
  pub finally-Clears :
      (p : Prog Shape Of S A) (g : S → S)
      → Safe Q Allowed p
      → ((s : S) → Q (g s))
      → Clears Q Allowed (finally p g)
  finally-Clears p g (returns a) q = lowers g _ q (returns a)
  finally-Clears p g (throws e) q = lowers g _ q (throws e)
  finally-Clears p g (sets f p' keep h) q = later f _ (finally-Clears p' g h q)
  finally-Clears p g (awaits asks k h l) q =
      on_reply asks _ (λ x y. finally-Clears (k (ok x)) g (h x y) q)
        (λ e. finally-Clears (k (fail e)) g (l e) q)
  finally-Clears p g (waits asks groups k h) q =
      on_first asks groups _ (λ x y. finally-Clears (k x) g (h x y) q)
  finally-Clears p g (spawns a b h l) q = beside a _ h (finally-Clears b g l q)

  detach-Clears :
      {B : Type 0} (p : Prog Shape Of S A)
      → Clears Q Allowed p
      → Clears Q Allowed {A = B} (detach p)
  detach-Clears p (lowers g p' q h) = lowers g _ q (detach-Safe p' h)
  detach-Clears p (later g p' h) = later g _ (detach-Clears p' h)
  detach-Clears p (on_reply asks k h l) =
      on_reply asks _ (λ x y. detach-Clears (k (ok x)) (h x y))
        (λ e. detach-Clears (k (fail e)) (l e))
  detach-Clears p (on_first asks groups k h) =
      on_first asks groups _ (λ x y. detach-Clears (k x) (h x y))
  detach-Clears p (beside a b h l) = beside _ _ (detach-Safe a h) (detach-Clears b l)
  detach-Clears p (handed a b h l) = handed _ _ (detach-Clears a h) (detach-Safe b l)

  pub try_catch-Clears :
      (p : Prog Shape Of S A) (f : Thrown → Prog Shape Of S A)
      → Clears Q Allowed p
      → ((e : Thrown) → Safe Q Allowed (f e))
      → Clears Q Allowed (try_catch p f)
  try_catch-Clears p f (lowers g p' q h) l = lowers g _ q (try_catch-Safe p' f h l)
  try_catch-Clears p f (later g p' h) l = later g _ (try_catch-Clears p' f h l)
  try_catch-Clears p f (on_reply asks k h m) l =
      on_reply asks _ (λ x y. try_catch-Clears (k (ok x)) f (h x y) l)
        (λ e. try_catch-Clears (k (fail e)) f (m e) l)
  try_catch-Clears p f (on_first asks groups k h) l =
      on_first asks groups _ (λ x y. try_catch-Clears (k x) f (h x y) l)
  try_catch-Clears p f (beside a b h m) l = beside a _ h (try_catch-Clears b f m l)
  try_catch-Clears p f (handed a b h m) l = handed a _ h (try_catch-Safe b f m l)

  pub finally_after :
      (p : Prog Shape Of S A) (g : S → S)
      → Clears Q Allowed p
      → ((s : S) → Q s → Q (g s))
      → Clears Q Allowed (finally p g)
  finally_after p g (lowers f p' q h) l = lowers f _ q (finally-Safe p' g h l)
  finally_after p g (later f p' h) l = later f _ (finally_after p' g h l)
  finally_after p g (on_reply asks k h m) l =
      on_reply asks _ (λ x y. finally_after (k (ok x)) g (h x y) l)
        (λ e. finally_after (k (fail e)) g (m e) l)
  finally_after p g (on_first asks groups k h) l =
      on_first asks groups _ (λ x y. finally_after (k x) g (h x y) l)
  finally_after p g (beside a b h m) l = beside a _ h (finally_after b g m l)
  finally_after p g (handed a b h m) l = handed a _ h (finally-Safe b g m l)

  pub bind-Clears :
      {B : Type 0} (p : Prog Shape Of S A) (f : A → Prog Shape Of S B)
      → Clears Q Allowed p
      → ((a : A) → Safe Q Allowed (f a))
      → Clears Q Allowed (p >>= f)
  bind-Clears p f (lowers g p' q h) l = lowers g _ q (bind-Safe p' f h l)
  bind-Clears p f (later g p' h) l = later g _ (bind-Clears p' f h l)
  bind-Clears p f (on_reply asks k h m) l =
      on_reply asks _ (λ x y. bind-Clears (k (ok x)) f (h x y) l)
        (λ e. bind-Clears (k (fail e)) f (m e) l)
  bind-Clears p f (on_first asks groups k h) l =
      on_first asks groups _ (λ x y. bind-Clears (k x) f (h x y) l)
  bind-Clears p f (beside a b h m) l = beside _ _ (detach-Safe a h) (bind-Clears b f m l)
  bind-Clears p f (handed a b h m) l = handed _ _ (detach-Clears a h) (bind-Safe b f m l)

  pub Settles-if :
      (b : Bool) (p q : Prog Shape Of S A)
      → Settles Q Allowed p
      → Settles Q Allowed q
      → Settles Q Allowed (if b then p else q)
  Settles-if true p q h k = h
  Settles-if false p q h k = k
