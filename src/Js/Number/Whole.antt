-- ===== src/Js/Number/Whole.antt =====
-- Arithmetic on doubles near whole numbers: what the percentages of the program rest on.
use mathlib.Core.Bool.{xor}
use csv_product_uploader.Prelude.{
  ◌+◌, ◌/◌, refl, ℕ, ◌*◌, ◌^◌, ◌≤◌, ◌<◌, ◌≡◌, ap, ◌∙◌, arith, Bool, false,
}
use csv_product_uploader.Js.Number.{
  mul, div, div_finite, round, Number, finite, unit, overflow, round_units, of_ratio, of_ℕ,
}
use csv_product_uploader.Js.Number.Doubles.{round_units_whole, round_units_mono}

-- The magnitude of a finite number, in units.
abbrev pub magnitude : Number → ℕ
magnitude (finite s m) = m
magnitude _ = 0

pub unit_pos : 0 < unit
unfolding unit
unit_pos = omega arith

round_units-le_whole :
    (k n d : ℕ) → 0 < d → k < 2 ^ 53 → n ≤ k * unit * d → round_units n d ≤ k * unit
round_units-le_whole k n d p h l = omega (
  arith,
  round_units_mono n d (k * unit) 1 p (omega arith) (omega arith),
  round_units_whole k (k * unit) 1 (omega arith) h (omega arith),
)

below_overflow : (k m : ℕ) → k < 2 ^ 53 → m ≤ k * unit → m < overflow
unfolding unit overflow
below_overflow k m h l = omega arith

-- A fraction that is at most a small whole number rounds to a finite number no larger than it.
pub of_ratio_finite :
    (s : Bool) (k n d : ℕ)
    → 0 < d
    → k < 2 ^ 53
    → n ≤ k * unit * d
    → (of_ratio s n d ≡ finite s (round_units n d)) × (round_units n d ≤ k * unit)
unfolding of_ratio
of_ratio_finite s k n d p h l =
    let b = round_units-le_whole k n d p h l in
    ground (arith, b, below_overflow k (round_units n d) h b)

pub of_ratio_whole :
    (s : Bool) (k n d : ℕ)
    → 0 < d
    → k < 2 ^ 53
    → n ≡ k * unit * d
    → of_ratio s n d ≡ finite s (k * unit)
of_ratio_whole s k n d p h e =
    (of_ratio_finite s k n d p h (omega arith)).0 ∙ ap (finite s) (round_units_whole k n d p h e)

-- A whole number below 2 ^ 53 is represented exactly.
pub of_ℕ-finite : (k : ℕ) → k < 2 ^ 53 → of_ℕ k ≡ finite false (k * unit)
unfolding of_ℕ
of_ℕ-finite k h = of_ratio_whole false k (k * unit) 1 (omega arith) h (omega arith)

pub mul_pos : (a b : ℕ) → 0 < a → 0 < b → 0 < a * b
mul_pos a b p q = grind arith

pub div_finite_lem :
    (a b : ℕ) → 0 < b → div (finite false a) (finite false b) ≡ of_ratio false (a * unit) b
unfolding div div_finite xor
div_finite_lem a b h = ground arith

pub mul_finite_lem : (a b : ℕ) → mul (finite false a) (finite false b) ≡ of_ratio false (a * b) unit
unfolding mul xor
mul_finite_lem a b = refl

pub round_finite_lem :
    (m : ℕ) → round (finite false m) ≡ finite false ((2 * m + unit) / (2 * unit) * unit)
unfolding round
round_finite_lem m = refl
