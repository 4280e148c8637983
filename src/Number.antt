-- ===== src/Number.antt =====
-- JavaScript numbers as web/src and agentweb/src use them: a finite number is a fraction with its
-- sign, so that every double is one; the rounding of arithmetic to doubles is not modelled.
pub mod Parse
use proxer.Base.{ℕ, suc, Bool}

-- `frac neg n d` is n / (d + 1), below zero if `neg`.
pub data Num : Type 0 where
  nan : Num
  infinite : Bool → Num
  frac : Bool → ℕ → ℕ → Num

abbrev pub int : ℕ → Num
int n = frac Bool.false n 0
