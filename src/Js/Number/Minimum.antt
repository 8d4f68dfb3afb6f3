-- ===== src/Js/Number/Minimum.antt =====
-- `Math.min` on doubles.
use csv_product_uploader.Prelude.{
  ℕ, ◌≤◌, ltb, Bool, true, false, ◌≡◌, refl, ap, arith, if◌then◌else◌, Bool-cases, inl, inr,
}
use csv_product_uploader.Js.Number.{Number, nan, infinite, finite}

-- `x < y`, with -0 below +0 as `Math.min` has it.
abbrev pub is_below : Number → Number → Bool
is_below nan y = false
is_below x nan = false
is_below (infinite s) (infinite t) = if s then (if t then false else true) else false
is_below (infinite s) (finite t b) = s
is_below (finite s a) (infinite t) = if t then false else true
is_below (finite true a) (finite true b) = ltb b a
is_below (finite true a) (finite false b) = true
is_below (finite false a) (finite true b) = false
is_below (finite false a) (finite false b) = ltb a b

unfoldable pub math_min : Number → Number → Number
math_min nan y = nan
math_min x nan = nan
math_min x y = if is_below y x then y else x

least : (x y : ℕ) → y ≤ x → ltb y x ≡ false → x ≡ y
least x y l h = ground arith

-- The smaller of two numbers that are not negative.
pub math_min_second :
    (x y : ℕ) → y ≤ x → math_min (finite false x) (finite false y) ≡ finite false y
unfolding math_min
math_min_second x y l = elim (Bool-cases (ltb y x)) [
  | inl less ↦ rw less refl
  | inr same ↦ rw same (ap (finite false) (least x y l same))
]
