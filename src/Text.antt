-- ===== src/Text.antt =====
-- Texts as web/src and agentweb/src use them: `trim`, `toLowerCase` and `String(n)`. `toLowerCase`
-- maps the ASCII letters and keeps every other character.
pub mod Uri
pub mod Trim
use Prim.Native.Nat.{compare, Ordering}
use Prim.Native.Char.{Char, char, code, nul, IsScalar}
use Prim.Native.String.{[], ◌∷◌}
use native.Mathlib.Decide.{dec_lt}
use proxer.Base.{
  ℕ, zero, suc, ◌+◌, ◌/◌, ◌%◌, ◌<◌, ◌≡◌, String, Bool, ◌&&◌, ◌||◌, arith, leb, ltb, nat_eq,
  if◌then◌else◌, ◌<>◌, ◌==◌, refl,
}

-- the white space and line terminators of ECMAScript
abbrev pub is_space : Char → Bool
is_space c =
    let n = code c in
    (leb 9 n && leb n 13)
    || nat_eq n 32
    || nat_eq n 160
    || nat_eq n 0x1680
    || (leb 0x2000 n && leb n 0x200a)
    || nat_eq n 0x2028
    || nat_eq n 0x2029
    || nat_eq n 0x202f
    || nat_eq n 0x205f
    || nat_eq n 0x3000
    || nat_eq n 0xfeff

unfoldable pub trim_start : String → String
trim_start [] = []
trim_start (c ∷ s) = if is_space c then trim_start s else c ∷ s

-- drops the white space at the end: a character stays if it, or something behind it, is none
pub trim_end : String → String
trim_end [] = []
trim_end (c ∷ s) = let rest = trim_end s in if is_space c && rest == "" then "" else c ∷ rest

unfoldable pub trim : String → String
unfolding trim_start trim_end
trim s = trim_end (trim_start s)

pub compare_of_lt : (n m : ℕ) → n < m → compare n m ≡ Ordering.lt
compare_of_lt n m h = ground arith

scalar_of_lt : (n : ℕ) → n < 0xd800 → IsScalar n
scalar_of_lt n h = rw (compare_of_lt n 0xd800 h) tt

-- the character of a number below U+D800
unfoldable pub chr : ℕ → Char
unfolding scalar_of_lt dec_lt
chr n = elim (dec_lt n 0xd800) [ yes h ↦ char n (scalar_of_lt n h) | no _ ↦ nul ]

pub code-chr : (n : ℕ) → n < 0xd800 → code (chr n) ≡ n
unfolding chr
code-chr n h = ground arith

lower : Char → Char
unfolding chr
lower c = if leb b'A' (code c) && leb (code c) b'Z' then chr (code c + 32) else c

unfoldable pub to_lower_case : String → String
unfolding lower
to_lower_case [] = []
to_lower_case (c ∷ s) = lower c ∷ to_lower_case s

-- the digits of a number in front of a text, on fuel
show_from : ℕ → ℕ → String → String
unfolding chr
show_from zero n out = out
show_from (suc f) n out =
    let more = show_from f (n / 10) (chr (48 + n % 10) ∷ out) in
    if ltb n 10 then chr (48 + n) ∷ out else more

-- `String(n)`: n + 1 rounds are enough for the digits of n
unfoldable pub show : ℕ → String
unfolding show_from
show n = show_from (suc n) n ""

show_test : show 2048 ≡ "2048"
unfolding show
show_test = refl
