-- ===== src/Server/Percentage.antt =====
-- The percentage in a progress event: csv.processor.ts `emitProgress` and upload.controller.ts
-- `streamProgress` compute it alike.
use csv_product_uploader.Prelude.{
  inl, inr, ℕ, ◌+◌, ◌*◌, ◌/◌, ◌^◌, ◌≤◌, ◌<◌, ◌≡◌, ◌∙◌, arith, false, ltb, lt→ltb, if◌then◌else◌,
}
use csv_product_uploader.Js.Number.{
  Number, finite, unit, round_units, of_ℕ, mul, div, round, of_ratio,
}
use csv_product_uploader.Js.Number.Doubles.{round_units_whole, round_units_mono}
use native.Mathlib.Nat.{mul-le-mul_left, div-lt_iff_lt-mul, div-eq_of_lt-le}
use csv_product_uploader.Js.Number.Rounding.{zero_or_pos, div_mono}
use csv_product_uploader.Js.Number.Whole.{
  magnitude, mul_pos, div_finite_lem, mul_finite_lem, round_finite_lem, of_ℕ-finite,
  of_ratio_finite, unit_pos,
}

-- `total > 0 ? Math.round((processed / total) * 100) : 0`
unfoldable pub percentage : ℕ → ℕ → Number
percentage processed total =
    if ltb 0 total then round (mul (div (of_ℕ processed) (of_ℕ total)) (of_ℕ 100)) else of_ℕ 0

-- The parts of the computation for `processed ≤ total`, in units.
share : ℕ → ℕ → ℕ
share p t = round_units (p * unit * unit) (t * unit)

hundredfold : ℕ → ℕ
hundredfold x = round_units (x * (100 * unit)) unit

whole_part : ℕ → ℕ
whole_part y = (2 * y + unit) / (2 * unit)

percentage_none : (p t : ℕ) → t ≡ 0 → percentage p t ≡ finite false (0 * unit)
unfolding percentage
percentage_none p t e = rw e (of_ℕ-finite 0 (omega arith))

share-le :
    (p t : ℕ)
    → 0 < t
    → p ≤ t
    → (of_ratio false (p * unit * unit) (t * unit) ≡ finite false (share p t))
      × (share p t ≤ 1 * unit)
unfolding share
share-le p t h l =
    of_ratio_finite false 1 (p * unit * unit) (t * unit) (mul_pos t unit h unit_pos) (omega arith)
      (omega (arith, mul-le-mul_left (unit * unit) l))

hundredfold-le :
    (x : ℕ)
    → x ≤ 1 * unit
    → (of_ratio false (x * (100 * unit)) unit ≡ finite false (hundredfold x))
      × (hundredfold x ≤ 100 * unit)
unfolding hundredfold
hundredfold-le x l =
    of_ratio_finite false 100 (x * (100 * unit)) unit unit_pos (omega arith)
      (omega (arith, mul-le-mul_left (100 * unit) l))

le_of_lt_suc : {n : ℕ} → n < 101 → n ≤ 100
le_of_lt_suc h = omega arith

whole_part_bound : (y : ℕ) → y ≤ 100 * unit → whole_part y ≤ 100
unfolding whole_part
whole_part_bound y h = le_of_lt_suc (
    (div-lt_iff_lt-mul {k = 2 * unit} {x = 2 * y + unit} {y = 101} (omega (arith, unit_pos))).1
      (omega (arith, unit_pos)))

percentage_parts :
    (p t : ℕ)
    → 0 < t
    → p ≤ t
    → t < 2 ^ 53
    → percentage p t ≡ finite false (whole_part (hundredfold (share p t)) * unit)
unfolding percentage whole_part
percentage_parts p t h l b =
    rw
      (
        lt→ltb 0 t h,
        of_ℕ-finite p (omega arith),
        of_ℕ-finite t b,
        of_ℕ-finite 100 (omega arith),
        div_finite_lem (p * unit) (t * unit) (mul_pos t unit h unit_pos),
        (share-le p t h l).0,
        mul_finite_lem (share p t) (100 * unit),
        (hundredfold-le (share p t) (share-le p t h l).1).0,
      )
      (round_finite_lem (hundredfold (share p t)))

-- The percentage of `processed` rows out of `total` is a whole number from 0 to 100, where at most
-- `total` rows are processed and `total` is below 2 ^ 53.
pub percentage_bounds :
    (processed total : ℕ)
    → processed ≤ total
    → total < 2 ^ 53
    → (n : ℕ) × (percentage processed total ≡ finite false (n * unit)) × (n ≤ 100)
percentage_bounds processed total l b = elim (zero_or_pos total) [
  | inl e ↦ (0, percentage_none processed total e, omega arith)
  | inr h ↦
      let x = share-le processed total h l in
      let y = hundredfold-le (share processed total) x.1 in
      (
        whole_part (hundredfold (share processed total)),
        percentage_parts processed total h l b,
        whole_part_bound (hundredfold (share processed total)) y.1,
      )
]

share_full : (t : ℕ) → 0 < t → share t t ≡ 1 * unit
unfolding share
share_full t h =
    round_units_whole 1 (t * unit * unit) (t * unit) (mul_pos t unit h unit_pos) (omega arith)
      (omega arith)

hundredfold_full : hundredfold (1 * unit) ≡ 100 * unit
unfolding hundredfold
hundredfold_full =
    round_units_whole 100 (1 * unit * (100 * unit)) unit unit_pos (omega arith) (omega arith)

whole_part_full : whole_part (100 * unit) ≡ 100
unfolding whole_part
whole_part_full = div-eq_of_lt-le {k = 100} (2 * unit) (omega arith) (omega (arith, unit_pos))

-- When every row is processed the percentage is 100, for a positive total below 2 ^ 53.
pub percentage_full : (total : ℕ) → 0 < total → total < 2 ^ 53 → percentage total total ≡ of_ℕ 100
percentage_full total h b =
    percentage_parts total total h (omega arith) b
    ∙ (rw (share_full total h, hundredfold_full, whole_part_full, of_ℕ-finite 100 (omega arith)))

share_mono : (p q t : ℕ) → 0 < t → p ≤ q → share p t ≤ share q t
unfolding share
share_mono p q t h l =
    round_units_mono (p * unit * unit) (t * unit) (q * unit * unit) (t * unit)
      (mul_pos t unit h unit_pos) (mul_pos t unit h unit_pos)
      (omega (arith, mul-le-mul_left (unit * unit * (t * unit)) l))

hundredfold_mono : (x y : ℕ) → x ≤ y → hundredfold x ≤ hundredfold y
unfolding hundredfold
hundredfold_mono x y l =
    round_units_mono (x * (100 * unit)) unit (y * (100 * unit)) unit unit_pos unit_pos
      (omega (arith, mul-le-mul_left (100 * unit * unit) l))

whole_part_mono : (x y : ℕ) → x ≤ y → whole_part x ≤ whole_part y
unfolding whole_part
whole_part_mono x y l =
    div_mono (2 * x + unit) (2 * unit) (2 * y + unit) (2 * unit) (omega (arith, unit_pos))
      (omega (arith, unit_pos)) (omega (arith, mul-le-mul_left (4 * unit) l))

-- The percentage does not fall as more rows of one total are processed.
pub percentage_mono :
    (p q total : ℕ)
    → p ≤ q
    → q ≤ total
    → total < 2 ^ 53
    → magnitude (percentage p total) ≤ magnitude (percentage q total)
percentage_mono p q total l k b = elim (zero_or_pos total) [
  | inl e ↦ rw (percentage_none p total e, percentage_none q total e) (omega arith)
  | inr h ↦
      rw (percentage_parts p total h (omega arith) b, percentage_parts q total h k b)
        (omega (
          arith,
          mul-le-mul_left unit
              (whole_part_mono _ _ (hundredfold_mono _ _ (share_mono p q total h l))),
        ))
]
