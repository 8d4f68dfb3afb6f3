-- ===== src/Js/Number.antt =====
-- JavaScript numbers (IEEE 754 doubles). A finite double is a whole multiple of 2 ^ -1074, so its
-- magnitude is kept as that multiple; arithmetic is exact and then rounded to 53 bits, ties to even.
pub mod Rounding
pub mod Doubles
pub mod Whole
pub mod Minimum
use csv_product_uploader.Prelude.{
  ℕ, zero, suc, ◌+◌, ◌-◌, ◌*◌, ◌/◌, ◌%◌, ◌^◌, Bool, true, false, ltb, leb, ◌==◌, if◌then◌else◌, ◌≡◌,
  refl,
}
use mathlib.Core.Bool.{xor}

-- `finite negative m` is the number ± m * 2 ^ -1074; -0 and 0 are different.
pub data Number : Type 0 where
  nan : Number
  infinite : Bool → Number
  finite : Bool → ℕ → Number

-- How many units make 1.
unfoldable pub unit : ℕ
unit = 2 ^ 1074

pub bits_on : ℕ → ℕ → ℕ
bits_on zero n = 0
bits_on (suc fuel) n = let more = suc (bits_on fuel (n / 2)) in if n == 0 then 0 else more

-- How many binary digits a number has.
pub bits : ℕ → ℕ
unfolding bits_on
bits n = bits_on n n

-- The spacing of the doubles around a magnitude.
pub spacing : ℕ → ℕ
unfolding bits
spacing q = 2 ^ (bits q - 53)

-- The whole number nearest to n / d, the even one of two.
pub nearest : ℕ → ℕ → ℕ
nearest n d =
    let up = suc (n / d) in
    if ltb (2 * (n % d)) d
    then n / d
    else if ltb d (2 * (n % d))
    then up
    else if (n / d) % 2 == 0
    then n / d
    else up

-- The double nearest to n / d units.
unfoldable pub round_units : ℕ → ℕ → ℕ
unfolding nearest spacing
round_units n d = nearest n (d * spacing (n / d)) * spacing (n / d)

-- 2 ^ 1024: from here on a magnitude is infinite.
unfoldable pub overflow : ℕ
overflow = 2 ^ 2098

unfoldable pub of_ratio : Bool → ℕ → ℕ → Number
of_ratio negative n d =
    if leb overflow (round_units n d) then infinite negative else finite negative (round_units n d)

unfoldable pub of_ℕ : ℕ → Number
of_ℕ n = of_ratio false (n * unit) 1

unfoldable pub mul : Number → Number → Number
mul (finite s a) (finite t b) = of_ratio (xor s t) (a * b) unit
mul (finite s a) (infinite t) = if a == 0 then nan else infinite (xor s t)
mul (infinite s) (finite t b) = if b == 0 then nan else infinite (xor s t)
mul (infinite s) (infinite t) = infinite (xor s t)
mul nan _ = nan
mul _ nan = nan

unfoldable pub div_finite : Bool → ℕ → ℕ → Number
div_finite negative a b =
    if b == 0 then (if a == 0 then nan else infinite negative) else of_ratio negative (a * unit) b

unfoldable pub div : Number → Number → Number
div (finite s a) (finite t b) = div_finite (xor s t) a b
div (finite s a) (infinite t) = finite (xor s t) 0
div (infinite s) (finite t b) = infinite (xor s t)
div (infinite s) (infinite t) = nan
div nan _ = nan
div _ nan = nan

abbrev pub is_nan : Number → Bool
is_nan nan = true
is_nan (infinite _) = false
is_nan (finite _ _) = false

-- `x < 0`
abbrev pub is_negative : Number → Bool
is_negative nan = false
is_negative (infinite s) = s
is_negative (finite s m) = if s then ltb 0 m else false

-- `Math.round`: the nearest whole number, halves towards +∞.
unfoldable pub round : Number → Number
round nan = nan
round (infinite s) = infinite s
round (finite s m) =
    finite s ((if s then (2 * m + unit - 1) / (2 * unit) else (2 * m + unit) / (2 * unit)) * unit)

bits_test : bits unit ≡ 1075
unfolding bits unit
bits_test = refl

third : round (mul (div (of_ℕ 1) (of_ℕ 3)) (of_ℕ 100)) ≡ of_ℕ 33
unfolding round mul div div_finite of_ℕ of_ratio round_units unit overflow xor
third = refl
