-- ===== src/Web/Format/Laws.antt =====
-- Bounds of the gauges, and what the number formats print.
use proxer.Base.{ℕ, suc, ◌*◌, ◌≤◌, ◌<◌, ◌≡◌, refl, true, false, Option, none, some, arith}
use proxer.Number.{Num, nan, infinite, frac, int}
use proxer.Web.Format.{round_up, ring_percent, format_number, format_percent, format_binary_size}

number_tests :
    (format_number (some (frac false 1999 99)) ≡ "19.99")
    × (format_number (some (frac false 500 99)) ≡ "5")
    × (format_number (some (frac false 10050 99)) ≡ "101")
    × (format_number (some (frac true 5 1)) ≡ "-2.50")
    × (format_percent (some (frac false 255 999)) ≡ "26%")
    × (format_binary_size (some (int 1572864)) ≡ "1.5 MB")
unfolding format_number format_percent format_binary_size
number_tests = (refl, refl, refl, refl, refl, refl)

round_up_bound : (n m : ℕ) → n ≤ m → 0 < m → round_up (n * 100) m ≤ 100
round_up_bound n m h k = grind arith

round_up_full : (m : ℕ) → 0 < m → round_up (m * 100) m ≡ 100
round_up_full m k = grind arith

clamped_bound : (n d : ℕ) → ring_percent (some (frac false n d)) ≤ 100
unfolding ring_percent
clamped_bound n d = ground (arith, round_up_bound n (suc d))

-- The ring of a gauge is filled by at most 100 percent, whatever number the server sent.
pub ring_percent_bound : (percent : Option Num) → ring_percent percent ≤ 100
unfolding ring_percent
ring_percent_bound none = omega arith
ring_percent_bound (some nan) = omega arith
ring_percent_bound (some (infinite neg)) = omega arith
ring_percent_bound (some (frac true (suc n) d)) = omega arith
ring_percent_bound (some (frac true ℕ.zero d)) = omega arith
ring_percent_bound (some (frac false n d)) = clamped_bound n d

-- A share n / (d + 1) that is one or more fills the ring.
ring_percent_full : (n d : ℕ) → suc d ≤ n → ring_percent (some (frac false n d)) ≡ 100
unfolding ring_percent
ring_percent_full n d h = ground (arith, round_up_full (suc d))
