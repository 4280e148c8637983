-- ===== src/Text/Trim.antt =====
-- What `trim` leaves.
use Prim.Native.Char.{Char}
use Prim.Native.String.{◌∷◌}
use proxer.Base.{String, false, ◌≡◌, ◌==◌, eq_iff, arith}
use text.Mathlib.TextLemmas.{cons-ne-nil}
use proxer.Text.{is_space, trim_start, trim_end, trim}

pub ne_empty : (c : Char) (s : String) → (c ∷ s == "") ≡ false
ne_empty c s = ground (arith, eq_iff (c ∷ s) "", cons-ne-nil c s)

-- A text that begins with a character other than white space does not trim to nothing.
pub trim-cons : (c : Char) (s : String) → is_space c ≡ false → (trim (c ∷ s) == "") ≡ false
unfolding trim
trim-cons c s h = rw (h, trim_start) (rw (h, trim_end) (ne_empty c (trim_end s)))
