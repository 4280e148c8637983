-- ===== src/Web/Format.antt =====
-- The helpers at the top of web/src/workspace/WorkspaceApp.js, and `formatBinarySize` of App.js.
pub mod Laws
use Prim.Native.String.{[]}
use proxer.Base.{
  ℕ, suc, ◌+◌, ◌-◌, ◌*◌, ◌/◌, ◌%◌, String, Bool, true, false, ◌||◌, Option, none, some, leb, ltb,
  nat_eq, if◌then◌else◌, ◌==◌, ◌<>◌, get_or, truthy,
}
use proxer.Number.{Num, nan, infinite, frac, int}
use proxer.Text.{show, to_lower_case}
use proxer.Effect.{Thrown, api_error, error, string, other}

-- `toErrorMessage`: an `ApiError` is an `Error`
unfoldable pub to_error_message : Thrown → String
to_error_message (api_error message status) = message
to_error_message (error message) = message
to_error_message (string s) = s
to_error_message other = "Request failed"

-- n / m rounded to the nearest whole number, a half upwards
abbrev pub round_up : ℕ → ℕ → ℕ
round_up n m = (2 * n + m) / (2 * m)

-- n / m rounded to the nearest whole number, a half downwards
abbrev pub round_down : ℕ → ℕ → ℕ
round_down n m = (2 * n + m - 1) / (2 * m)

-- `${Math.round(x)}`: a half goes towards the greater number, and -0 prints as 0
show_round : Bool → ℕ → ℕ → String
unfolding show
show_round false n m = show (round_up n m)
show_round true n m = let k = round_down n m in if nat_eq k 0 then "0" else "-" <> show k

unfoldable pub clamp_percent : Num → Num
clamp_percent nan = int 0
clamp_percent (infinite neg) = int 0
clamp_percent (frac true (suc n) d) = int 0
clamp_percent (frac true ℕ.zero d) = frac true 0 d
clamp_percent (frac false n d) = if ltb (suc d) n then int 1 else frac false n d

unfoldable pub format_percent : Option Num → String
unfolding show_round
format_percent value = elim (get_or value (int 0)) [
  | nan ↦ "0%"
  | infinite neg ↦ "0%"
  | frac neg n d ↦ show_round neg (n * 100) (suc d) <> "%"
]

-- two digits
abbrev cents : ℕ → String
cents k = if ltb k 10 then "0" <> show k else show k

-- `x.toFixed(2).replace(/\.00$/, "")` for x = n / m at least 0
fixed : ℕ → ℕ → String
unfolding show
fixed n m =
    let k = round_up (n * 100) m in
    if nat_eq (k % 100) 0 then show (k / 100) else show (k / 100) <> "." <> cents (k % 100)

negative : Bool → ℕ → Bool
negative true (suc n) = true
negative _ _ = false

unfoldable pub format_number : Option Num → String
unfolding show_round fixed negative
format_number value = elim (get_or value (int 0)) [
  | nan ↦ "0"
  | infinite neg ↦ "0"
  | frac neg n d ↦
      if leb (100 * suc d) n
      then show_round neg n (suc d)
      else if negative neg n
      then "-" <> fixed n (suc d)
      else fixed n (suc d)
]

-- `formatDateTime`: `parse` is the browser's `new Date(value)` and `toLocaleString`, where it is a date
unfoldable pub format_date_time : (String → Option String) → Option String → String
format_date_time parse none = "-"
format_date_time parse (some value) = if value == "" then "-" else get_or (parse value) value

pub data StatusClass : Type 0 where
  ok fail warn : StatusClass

unfoldable pub status_class : String → StatusClass
unfolding to_lower_case
status_class value =
    let normalized = to_lower_case value in
    if normalized == "online"
      || normalized == "active"
      || normalized == "enabled"
      || normalized == "ok"
    then ok
    else if normalized == "offline"
        || normalized == "degraded"
        || normalized == "disabled"
        || normalized == "critical"
        || normalized == "error"
    then fail
    else warn

-- `Math.round(clampPercent(Number(gauge?.percent ?? 0)) * 100)` of `GaugeCard`
unfoldable pub ring_percent : Option Num → ℕ
unfolding clamp_percent
ring_percent percent = elim (clamp_percent (get_or percent (int 0))) [
  | frac false n d ↦ round_up (n * 100) (suc d)
  | _ ↦ 0
]

-- `(x).toFixed(1)` for x = n / m
fixed_1 : ℕ → ℕ → String
unfolding show
fixed_1 n m = let k = round_up (n * 10) m in show (k / 10) <> "." <> show (k % 10)

-- `formatBinarySize` of App.js
unfoldable pub format_binary_size : Option Num → String
unfolding show fixed_1
format_binary_size bytes = elim (get_or bytes (int 0)) [
  | frac false (suc n) d ↦
      if ltb (suc n) (1048576 * suc d)
      then show (round_up (suc n) (1024 * suc d)) <> " KB"
      else fixed_1 (suc n) (1048576 * suc d) <> " MB"
  | _ ↦ "-"
]
