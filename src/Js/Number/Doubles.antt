-- ===== src/Js/Number/Doubles.antt =====
-- The double nearest to a fraction: monotone in the fraction, and exact at whole numbers below 2 ^ 53.
use native.Mathlib.Nat.{
  mul-le-mul_left, mul_assoc, div-mul-le_self, lt-mul-div-succ, mul-div_left, le_antisymm, le_of_eq,
}
use csv_product_uploader.Prelude.{
  ℕ, ◌+◌, ◌-◌, ◌*◌, ◌/◌, ◌^◌, ◌≤◌, ◌<◌, ◌≡◌, refl, sym, ap, ◌∙◌, ◌⊎◌, inl, inr, arith,
}
use csv_product_uploader.Js.Number.{bits, spacing, nearest, round_units, unit}
use csv_product_uploader.Js.Number.Rounding.{
  pow_pos, pow_mono, pow_add, bits_on-lt, bits_on-le, bits_on-zero, nearest_mono, zero_or_pos,
  div_mono,
}

bits-lt : (n : ℕ) → n < 2 ^ bits n
unfolding bits
bits-lt n = bits_on-lt n n (omega arith)

bits-le : (n : ℕ) → 0 < n → 2 ^ bits n ≤ 2 * n
unfolding bits
bits-le n h = bits_on-le n n (omega arith) h

bits-zero : (n : ℕ) → n ≡ 0 → bits n ≡ 0
unfolding bits
bits-zero n e = bits_on-zero n n e

-- A number below 2 ^ k has at most k digits.
bits_bound : (n k : ℕ) → n < 2 ^ k → bits n ≤ k
bits_bound n k h = elim (zero_or_pos n) [
  | inl e ↦ omega (arith, bits-zero n e)
  | inr p ↦ bits_bound_pos p
]
  where
    bits_bound_pos : 0 < n → bits n ≤ k
    bits_bound_pos p = elim (zero_or_pos (bits n - k)) [
      | inl e ↦ omega arith
      | inr l ↦
          absurd
            (omega (arith, bits-le n p, pow_mono (k + 1) (bits n) (omega arith), pow_add k 1, h))
    ]

-- The spacing divides each power of two that is no smaller.
spacing_divides : (q k : ℕ) → bits q - 53 ≤ k → 2 ^ (k - (bits q - 53)) * spacing q ≡ 2 ^ k
unfolding spacing
spacing_divides q k h =
    sym (pow_add (k - (bits q - 53)) (bits q - 53)) ∙ ap (λ (e : ℕ). 2 ^ e) (omega arith)

same_spacing : (x y : ℕ) → bits x ≡ bits y → spacing x ≡ spacing y
unfolding spacing
same_spacing x y e = ap (λ (k : ℕ). 2 ^ (k - 53)) e

spacing_pos : (q : ℕ) → 0 < spacing q
unfolding spacing
spacing_pos q = pow_pos (bits q - 53)

nearest_one : (m : ℕ) → nearest m 1 ≡ m
unfolding nearest
nearest_one m = ground arith

round_units_lem : (n d : ℕ) → round_units n d ≡ nearest n (d * spacing (n / d)) * spacing (n / d)
unfolding round_units
round_units_lem n d = refl

top_bit : (x : ℕ) → 0 < bits x → 2 ^ (bits x - 1) ≤ x
top_bit x h = elim (zero_or_pos x) [
  | inl e ↦ absurd (omega (arith, bits-zero x e))
  | inr p ↦
      let e : 2 ^ bits x ≡ 2 ^ (bits x - 1) * 2 ^ 1 =
        ap (λ (k : ℕ). 2 ^ k) (omega arith) ∙ pow_add (bits x - 1) 1 in
      omega (arith, bits-le x p)
]

mul_pos : (a b : ℕ) → 0 < a → 0 < b → 0 < a * b
mul_pos a b p q = grind arith

-- A multiple of the spacing bounds the rounded value from above and from below.
round_units-le :
    (n d m : ℕ) → 0 < d → n ≤ m * spacing (n / d) * d → round_units n d ≤ m * spacing (n / d)
round_units-le n d m p h =
    let s = spacing (n / d) in
    let k : nearest n (d * s) ≤ nearest m 1 =
      nearest_mono n (d * s) m 1 (mul_pos d s p (spacing_pos (n / d))) (omega arith)
        (omega arith) in
    rw round_units_lem (omega (arith, mul-le-mul_left s (rw nearest_one at k)))

round_units-ge :
    (n d m : ℕ) → 0 < d → m * spacing (n / d) * d ≤ n → m * spacing (n / d) ≤ round_units n d
round_units-ge n d m p h =
    let s = spacing (n / d) in
    let k : nearest m 1 ≤ nearest n (d * s) =
      nearest_mono m 1 n (d * s) (omega arith) (mul_pos d s p (spacing_pos (n / d)))
        (omega arith) in
    rw round_units_lem (omega (arith, mul-le-mul_left s (rw nearest_one at k)))

-- A power of two that is no smaller than the spacing bounds the rounded value likewise.
round_units-le_pow :
    (n d k : ℕ) → 0 < d → bits (n / d) - 53 ≤ k → n ≤ 2 ^ k * d → round_units n d ≤ 2 ^ k
round_units-le_pow n d k p b h =
    let e = spacing_divides (n / d) k b in
    let m = 2 ^ (k - (bits (n / d) - 53)) in rw (← e) (round_units-le n d m p (rw e h))

round_units-ge_pow :
    (n d k : ℕ) → 0 < d → bits (n / d) - 53 ≤ k → 2 ^ k * d ≤ n → 2 ^ k ≤ round_units n d
round_units-ge_pow n d k p b h =
    let e = spacing_divides (n / d) k b in
    let m = 2 ^ (k - (bits (n / d) - 53)) in rw (← e) (round_units-ge n d m p (rw e h))

bits_mono : (x y : ℕ) → x ≤ y → bits x ≤ bits y
bits_mono x y h = bits_bound x (bits y) (omega (arith, bits-lt y))

bits_cases : (x y : ℕ) → x ≤ y → (bits x ≡ bits y) ⊎ (bits x < bits y)
bits_cases x y h = grind (arith, bits_mono x y h)

round_units_mono_same :
    (a b c d : ℕ)
    → 0 < b
    → 0 < d
    → a * d ≤ c * b
    → spacing (a / b) ≡ spacing (c / d)
    → round_units a b ≤ round_units c d
round_units_mono_same a b c d p q h e =
    let s = spacing (c / d) in
    let sp = spacing_pos (c / d) in
    let k : nearest a (b * s) ≤ nearest c (d * s) =
      nearest_mono a (b * s) c (d * s) (mul_pos b s p sp) (mul_pos d s q sp)
        (omega (arith, mul-le-mul_left s h)) in
    rw (round_units_lem a b, round_units_lem c d, e) (omega (arith, mul-le-mul_left s k))

round_units-le_bits : (n d : ℕ) → 0 < d → round_units n d ≤ 2 ^ bits (n / d)
round_units-le_bits n d p =
    round_units-le_pow n d (bits (n / d)) p (omega arith)
      (omega (arith, lt-mul-div-succ n p, mul-le-mul_left d (bits-lt (n / d))))

round_units-ge_bits :
    (n d : ℕ) → 0 < d → 0 < bits (n / d) → 2 ^ (bits (n / d) - 1) ≤ round_units n d
round_units-ge_bits n d p h =
    round_units-ge_pow n d (bits (n / d) - 1) p (omega arith)
      (omega (arith, div-mul-le_self n d, mul-le-mul_left d (top_bit (n / d) h)))

round_units_mono_apart :
    (a b c d : ℕ) → 0 < b → 0 < d → bits (a / b) < bits (c / d) → round_units a b ≤ round_units c d
round_units_mono_apart a b c d p q l = omega (
  arith,
  round_units-le_bits a b p,
  round_units-ge_bits c d q (omega arith),
  pow_mono (bits (a / b)) (bits (c / d) - 1) (omega arith),
)

-- Rounding keeps the order of fractions.
pub round_units_mono :
    (a b c d : ℕ) → 0 < b → 0 < d → a * d ≤ c * b → round_units a b ≤ round_units c d
round_units_mono a b c d p q h = elim (bits_cases (a / b) (c / d) (div_mono a b c d p q h)) [
  | inl e ↦ round_units_mono_same a b c d p q h (spacing_eq e)
  | inr l ↦ round_units_mono_apart a b c d p q l
]
  where
    spacing_eq : bits (a / b) ≡ bits (c / d) → spacing (a / b) ≡ spacing (c / d)
    spacing_eq e = same_spacing (a / b) (c / d) e

-- Where the spacing at n / d divides one unit, a whole number of ones is left alone.
round_units_multiple :
    (k n d : ℕ)
    → 0 < d
    → bits (n / d) - 53 ≤ 1074
    → n ≡ k * 2 ^ 1074 * d
    → round_units n d ≡ k * 2 ^ 1074
round_units_multiple k n d p b e =
    let m = 2 ^ (1074 - (bits (n / d) - 53)) in
    let f : k * m * spacing (n / d) ≡ k * 2 ^ 1074 =
      mul_assoc k m (spacing (n / d)) ∙ ap (λ (t : ℕ). k * t) (spacing_divides (n / d) 1074 b) in
    let g : n ≡ k * m * spacing (n / d) * d = e ∙ ap (λ (t : ℕ). t * d) (sym f) in
    le_antisymm (rw f at (round_units-le n d (k * m) p (le_of_eq g)))
      (rw f at (round_units-ge n d (k * m) p (le_of_eq (sym g))))

-- A whole number below 2 ^ 53 is a double: rounding leaves it alone.
pub round_units_whole :
    (k n d : ℕ) → 0 < d → k < 2 ^ 53 → n ≡ k * unit * d → round_units n d ≡ k * unit
unfolding unit
round_units_whole k n d p h e =
    let q : n / d ≡ k * 2 ^ 1074 = ap (λ (t : ℕ). t / d) e ∙ mul-div_left (k * 2 ^ 1074) p in
    let b : bits (n / d) ≤ 1127 = bits_bound (n / d) 1127 (rw q (omega arith)) in
    round_units_multiple k n d p (omega arith) e
