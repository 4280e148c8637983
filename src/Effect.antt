-- ===== src/Effect.antt =====
-- Asynchronous handlers of the two React frontends as programs: a program changes its component's
-- state by the state setters, waits for replies to requests, returns or throws. The code between
-- two waits runs without interruption, as JavaScript runs it.
pub mod Run
pub mod Safe
pub mod Pool
pub mod Settle
pub mod Ends
use proxer.Base.{String, ◌⊎◌, inl, inr, ◌++◌, ◌≡◌, refl, List, [], ◌∷◌, Option, none, some, ℕ}
use proxer.Json.{Json}

-- What `throw` can carry: an `ApiError`, another `Error`, a text, or anything else.
pub data Thrown : Type 0 where
  api_error : String → ℕ → Thrown
  error : String → Thrown
  string : String → Thrown
  other : Thrown

pub data Result (A : Type 0) : Type 0 where
  ok : A → Result A
  fail : Thrown → Result A

pub record Request : Type 0 where
  pub method : String
  pub path : String
  pub body : Option Json

abbrev pub get : String → Request
get path = record { method = "GET"; path = path; body = none }

abbrev pub send : String → String → Json → Request
send method path body = record { method = method; path = path; body = some body }

abbrev pub bare : String → String → Request
bare method path = record { method = method; path = path; body = none }

-- `Shape` names the payload types `T` of `api<T>(…)`, and `Of` is the type for each.
abbrev pub Ask : Type 0 → Type 0
Ask Shape = Shape × Request

abbrev pub either : {A B C : Type 0} → (A → C) → (B → C) → A ⊎ B → C
either f g (inl a) = f a
either f g (inr b) = g b

-- a reply to the only group
abbrev pub only : {A B : Type 0} → (A → B) → A ⊎ ⊥ → B
only f (inl a) = f a
only f (inr h) = absurd h

module _ (Shape : Type 0) (Of : Shape → Type 0) where
  -- what `Promise.all` of these requests is fulfilled with
  abbrev pub Replies : List (Ask Shape) → Type 0
  Replies [] = Unit {0}
  Replies ((t, r) ∷ asks) = Of t × Replies asks

  -- Which of several groups settles first, and with what.
  abbrev pub Pick : List (List (Ask Shape)) → Type 0
  Pick [] = ⊥
  Pick (asks ∷ groups) = Result (Replies asks) ⊎ Pick groups

  -- which side of a list of groups it was
  abbrev pub split : (gs hs : List (List (Ask Shape))) → Pick (gs ++ hs) → Pick gs ⊎ Pick hs
  split [] hs x = inr x
  split (asks ∷ gs) hs (inl x) = inl (inl x)
  split (asks ∷ gs) hs (inr x) = elim (split gs hs x) [ inl y ↦ inl (inr y) | inr z ↦ inr z ]

-- `set` calls state setters; `calls` sends some requests and awaits their `Promise.all`; `pending`
-- awaits the first of several such groups; `spawn p q` lets `p` run on by itself, where nothing waits
-- for its end, and goes on with `q`.
pub data Prog (Shape : Type 0) (Of : Shape → Type 0) (S : Type 0) (A : Type 0) : Type 0 where
  done : A → Prog Shape Of S A
  throw : Thrown → Prog Shape Of S A
  set : (S → S) → Prog Shape Of S A → Prog Shape Of S A
  calls :
      (asks : List (Ask Shape))
      → (Result (Replies Shape Of asks) → Prog Shape Of S A)
      → Prog Shape Of S A
  pending :
      (asks : List (Ask Shape)) (groups : List (List (Ask Shape)))
      → (Pick Shape Of (asks ∷ groups) → Prog Shape Of S A)
      → Prog Shape Of S A
  spawn : Prog Shape Of S A → Prog Shape Of S A → Prog Shape Of S A

module _ {Shape : Type 0} {Of : Shape → Type 0} {S : Type 0} where
  -- a program that runs by itself: how it ends is ignored
  abbrev pub detach : {A B : Type 0} → Prog Shape Of S A → Prog Shape Of S B
  detach (done a) = throw other
  detach (throw e) = throw other
  detach (set g p) = set g (detach p)
  detach (calls asks k) = calls asks (λ x. detach (k x))
  detach (pending asks groups k) = pending asks groups (λ x. detach (k x))
  detach (spawn p q) = spawn (detach p) (detach q)

  infixl 5 ◌>>=◌ ◌>>◌
  abbrev pub ◌>>=◌ :
      {A B : Type 0} → Prog Shape Of S A → (A → Prog Shape Of S B) → Prog Shape Of S B
  done a >>= f = f a
  throw e >>= f = throw e
  set g p >>= f = set g (p >>= f)
  calls asks k >>= f = calls asks (λ x. k x >>= f)
  pending asks groups k >>= f = pending asks groups (λ x. k x >>= f)
  spawn p q >>= f = spawn (detach p) (q >>= f)

  abbrev pub ◌>>◌ : {A B : Type 0} → Prog Shape Of S A → Prog Shape Of S B → Prog Shape Of S B
  p >> q = p >>= λ _. q

  -- `try { p } catch (err) { h(err) }`
  abbrev pub try_catch :
      {A : Type 0} → Prog Shape Of S A → (Thrown → Prog Shape Of S A) → Prog Shape Of S A
  try_catch (done a) h = done a
  try_catch (throw e) h = h e
  try_catch (set g p) h = set g (try_catch p h)
  try_catch (calls asks k) h = calls asks (λ x. try_catch (k x) h)
  try_catch (pending asks groups k) h = pending asks groups (λ x. try_catch (k x) h)
  try_catch (spawn p q) h = spawn p (try_catch q h)

  -- `try { p } finally { g }`, where `g` is a state setter
  abbrev pub finally : {A : Type 0} → Prog Shape Of S A → (S → S) → Prog Shape Of S A
  finally (done a) g = set g (done a)
  finally (throw e) g = set g (throw e)
  finally (set f p) g = set f (finally p g)
  finally (calls asks k) g = calls asks (λ x. finally (k x) g)
  finally (pending asks groups k) g = pending asks groups (λ x. finally (k x) g)
  finally (spawn p q) g = spawn p (finally q g)

  abbrev pub modify : (S → S) → Prog Shape Of S (Unit {0})
  modify g = set g (done tt)

  abbrev pub settle : {A : Type 0} → Result A → Prog Shape Of S A
  settle (ok a) = done a
  settle (fail e) = throw e

  -- `await Promise.all([api(…), …])`
  abbrev pub all : (asks : List (Ask Shape)) → Prog Shape Of S (Replies Shape Of asks)
  all asks = calls asks settle

  -- `await Promise.all([p, q])` of two actions. Both start at once and wait for their replies in any
  -- order. It ends when both have ended; when one throws, it throws that error at once, and the
  -- other runs on by itself.
  abbrev pub together :
      Prog Shape Of S (Unit {0}) → Prog Shape Of S (Unit {0}) → Prog Shape Of S (Unit {0})
  together (done a) q = q
  together (throw e) q = spawn (detach q) (throw e)
  together (set g p) q = set g (together p q)
  together (spawn b p) q = spawn b (together p q)
  together (calls is k) (done a) = calls is k
  together (calls is k) (throw e) = spawn (detach (calls is k)) (throw e)
  together (calls is k) (set g q) = set g (together (calls is k) q)
  together (calls is k) (spawn b q) = spawn b (together (calls is k) q)
  together (calls is k) (calls bs l) =
      pending is (bs ∷ [])
        (either (λ r. together (k r) (calls bs l)) (only (λ r. together (calls is k) (l r))))
  together (calls is k) (pending bs hs l) =
      pending is (bs ∷ hs)
        (either (λ r. together (k r) (pending bs hs l)) (λ y. together (calls is k) (l y)))
  together (pending is gs k) (done a) = pending is gs k
  together (pending is gs k) (throw e) = spawn (detach (pending is gs k)) (throw e)
  together (pending is gs k) (set g q) = set g (together (pending is gs k) q)
  together (pending is gs k) (spawn b q) = spawn b (together (pending is gs k) q)
  together (pending is gs k) (calls bs l) = pending is (gs ++ bs ∷ []) (λ x.
      either (λ y. together (k y) (calls bs l)) (only (λ r. together (pending is gs k) (l r)))
        (split Shape Of (is ∷ gs) (bs ∷ []) x))
  together (pending is gs k) (pending bs hs l) = pending is (gs ++ bs ∷ hs) (λ x.
      either (λ y. together (k y) (pending bs hs l)) (λ y. together (pending is gs k) (l y))
        (split Shape Of (is ∷ gs) (bs ∷ hs) x))
