-- ===== src/Js/Number/Rounding.antt =====
-- Rounding to a double is monotone, and leaves whole numbers below 2 ^ 53 alone.
use native.Mathlib.Nat.{
  pow-suc, le-div_iff_mul-le, le_of_mul-le-mul_left, lt_of_mul-lt-mul_left, div-mul-le_self,
  mul-le-mul_left, div-add-mod,
}
use csv_product_uploader.Prelude.{
  ℕ, zero, suc, ◌+◌, ◌*◌, ◌/◌, ◌%◌, ◌^◌, ◌≤◌, ◌<◌, ◌≡◌, refl, ◌⊎◌, inl, inr, arith,
}
use csv_product_uploader.Js.Number.{bits_on, nearest}

pub zero_or_pos : (n : ℕ) → (n ≡ 0) ⊎ (0 < n)
zero_or_pos n = grind arith

pub le_cases : {m n : ℕ} → m ≤ n → (m ≡ n) ⊎ (m < n)
le_cases h = grind arith

pub pow_pos : (k : ℕ) → 0 < 2 ^ k
pow_pos zero = omega arith
pow_pos (suc k) = rw (pow-suc 2 k) (omega (arith, pow_pos k))

pub pow_mono : (a b : ℕ) → a ≤ b → 2 ^ a ≤ 2 ^ b
pow_mono zero b h = pow_pos b
pow_mono (suc a) zero h = absurd (omega arith)
pow_mono (suc a) (suc b) h =
    rw (pow-suc 2 a, pow-suc 2 b) (omega (arith, pow_mono a b (omega arith)))

pub pow_add : (a b : ℕ) → 2 ^ (a + b) ≡ 2 ^ a * 2 ^ b
pow_add zero b = let e : zero + b ≡ b = omega arith in rw e (omega arith)
pow_add (suc a) b =
    let e : suc a + b ≡ suc (a + b) = omega arith in
    rw (e, pow-suc 2 (a + b), pow-suc 2 a, pow_add a b) (omega arith)

pub bits_on-lt : (fuel n : ℕ) → n ≤ fuel → n < 2 ^ bits_on fuel n
unfolding bits_on
bits_on-lt zero n h = omega arith
bits_on-lt (suc fuel) n h =
    ground (arith, pow-suc 2 (bits_on fuel (n / 2)), bits_on-lt fuel (n / 2))

pub bits_on-zero : (fuel n : ℕ) → n ≡ 0 → bits_on fuel n ≡ 0
unfolding bits_on
bits_on-zero zero n e = refl
bits_on-zero (suc fuel) n e = ground arith

-- A positive number has its top binary digit set.
pub bits_on-le : (fuel n : ℕ) → n ≤ fuel → 0 < n → 2 ^ bits_on fuel n ≤ 2 * n
unfolding bits_on
bits_on-le zero n h p = absurd (omega arith)
bits_on-le (suc fuel) n h p = elim (zero_or_pos (n / 2)) [
  | inl e ↦ ground (arith, pow-suc 2 (bits_on fuel (n / 2)), bits_on-zero fuel (n / 2))
  | inr e ↦ ground (arith, pow-suc 2 (bits_on fuel (n / 2)), bits_on-le fuel (n / 2))
]

pub div_mono : (a b c d : ℕ) → 0 < b → 0 < d → a * d ≤ c * b → a / b ≤ c / d
div_mono a b c d p q h = (le-div_iff_mul-le {k = d} {x = a / b} {y = c} q).1 (
    le_of_mul-le-mul_left {m = a / b * d} {n = c} {k = b}
      (omega (arith, mul-le-mul_left d (div-mul-le_self a b))) p)

pub nearest_bounds : (n d : ℕ) → (n / d ≤ nearest n d) × (nearest n d ≤ n / d + 1)
unfolding nearest
nearest_bounds n d = ground arith

-- With the same whole part the order is that of the rests.
rests_le : (a b c d : ℕ) → a / b ≡ c / d → a * d ≤ c * b → (a % b) * d ≤ (c % d) * b
rests_le a b c d e h =
    let x : (b * (a / b) + a % b) * d ≡ a * d = rw (div-add-mod a b) in
    let y : (d * (c / d) + c % d) * b ≡ c * b = rw (div-add-mod c d) in
    let z : b * (a / b) * d ≡ b * (c / d) * d = rw e in omega arith

half_le : (b d r s : ℕ) → 0 < b → r * d ≤ s * b → b ≤ 2 * r → d ≤ 2 * s
half_le b d r s p h k =
    le_of_mul-le-mul_left {m = d} {n = 2 * s} {k = b} (omega (arith, mul-le-mul_left d k)) p

half_lt : (b d r s : ℕ) → 0 < d → r * d ≤ s * b → b < 2 * r → d < 2 * s
half_lt b d r s p h k =
    lt_of_mul-lt-mul_left b {m = d} {n = 2 * s} (omega (arith, mul-le-mul_left d k))

nearest_mono_same :
    (a b c d : ℕ) → 0 < b → 0 < d → a * d ≤ c * b → a / b ≡ c / d → nearest a b ≤ nearest c d
unfolding nearest
nearest_mono_same a b c d p q h e = ground (
  arith,
  half_le b d (a % b) (c % d) p (rests_le a b c d e h),
  half_lt b d (a % b) (c % d) q (rests_le a b c d e h),
)

pub nearest_mono : (a b c d : ℕ) → 0 < b → 0 < d → a * d ≤ c * b → nearest a b ≤ nearest c d
nearest_mono a b c d p q h = elim (le_cases (div_mono a b c d p q h)) [
  | inl e ↦ nearest_mono_same a b c d p q h e
  | inr l ↦ omega (arith, nearest_bounds a b, nearest_bounds c d)
]
