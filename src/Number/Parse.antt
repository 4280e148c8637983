-- ===== src/Number/Parse.antt =====
-- `Number(text)` for the values of number inputs (a decimal with an optional sign, fraction and
-- exponent, or nothing), and `Number.parseInt(text, 10)`. The other forms of `Number(text)`, such as
-- `0x10` and `Infinity`, cannot come from a number input and are read as NaN.
use Prim.Native.Char.{code}
use Prim.Native.String.{[], ◌∷◌}
use proxer.Base.{
  ℕ, suc, ◌+◌, ◌-◌, ◌*◌, ◌^◌, String, Bool, true, false, ◌&&◌, ◌||◌, not, Option, none, some, ◌≡◌,
  refl, leb, nat_eq, if◌then◌else◌, ◌==◌,
}
use proxer.Number.{Num, nan, frac, int}
use proxer.Text.{trim, trim_start}

unfoldable pub is_digit : ℕ → Bool
is_digit n = leb 48 n && leb n 57

-- The digits at the front of a text: how many, their value behind `acc`, and the rest.
pub record Digits : Type 0 where
  pub count : ℕ
  pub value : ℕ
  pub rest : String

unfoldable pub digits : ℕ → ℕ → String → Digits
unfolding is_digit
digits count acc [] = record { count = count; value = acc; rest = "" }
digits count acc (c ∷ s) =
    let more = digits (suc count) (acc * 10 + (code c - 48)) s in
    if is_digit (code c) then more else record { count = count; value = acc; rest = c ∷ s }

-- a sign at the front: whether it is a minus, and the rest
unfoldable pub sign : String → Bool × String
sign [] = (false, "")
sign (c ∷ s) =
    if nat_eq (code c) 45
    then (true, s)
    else if nat_eq (code c) 43
    then (false, s)
    else (false, c ∷ s)

-- what `parseInt` makes of a sign and what follows it; no digit is NaN
abbrev pub signed : Bool → Digits → Option (Bool × ℕ)
signed neg found = if nat_eq found.count 0 then none else some (neg, found.value)

abbrev pub read_int : Bool × String → Option (Bool × ℕ)
read_int (neg, body) = signed neg (digits 0 0 body)

-- `Number.parseInt(text, 10)`: the digits at the front count, and what is behind them is ignored
unfoldable pub parse_int : String → Option (Bool × ℕ)
unfolding trim_start sign digits
parse_int s = read_int (sign (trim_start s))

-- n * 10 ^ e / 10 ^ f
scaled : Bool → ℕ → ℕ → ℕ → Num
scaled neg n e f = frac neg (n * 10 ^ e) (10 ^ f - 1)

exponent : Bool → ℕ → ℕ → String → Num
unfolding scaled sign digits
exponent neg n f [] = scaled neg n 0 f
exponent neg n f (c ∷ s) =
    if nat_eq (code c) 101 || nat_eq (code c) 69
    then (let (below, body) = sign s in
        let found = digits 0 0 body in
        if nat_eq found.count 0 || not (found.rest == "")
        then nan
        else if below
        then scaled neg n 0 (f + found.value)
        else scaled neg n found.value f)
    else nan

fraction : Bool → Digits → String → Num
unfolding exponent digits
fraction neg whole [] = if nat_eq whole.count 0 then nan else frac neg whole.value 0
fraction neg whole (c ∷ s) =
    if nat_eq (code c) 46
    then (let found = digits 0 whole.value s in
        if nat_eq (whole.count + found.count) 0
        then nan
        else exponent neg found.value found.count found.rest)
    else if nat_eq whole.count 0
    then nan
    else exponent neg whole.value 0 (c ∷ s)

unfoldable pub to_number : String → Num
unfolding trim sign digits fraction
to_number s =
    let t = trim s in
    let (neg, body) = sign t in
    let whole = digits 0 0 body in if t == "" then int 0 else fraction neg whole whole.rest

number_tests :
    (to_number " 12.50 " ≡ frac false 1250 99)
    × (to_number "" ≡ int 0)
    × (to_number "1e3" ≡ frac false 1000 0)
    × (to_number "-.5" ≡ frac true 5 9)
    × (to_number "3x" ≡ nan)
    × (parse_int " 20MB" ≡ some (false, 20))
    × (parse_int "MB" ≡ none)
unfolding to_number parse_int
number_tests = (refl, refl, refl, refl, refl, refl, refl)
