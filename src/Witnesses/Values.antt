-- ===== src/Witnesses/Values.antt =====
-- Percentages and dates.
use csv_product_uploader.Prelude.{
  ℕ, ◌*◌, ◌+◌, ◌≤◌, ◌<◌, true, false, [], ◌∷◌, some, ◌≡◌, refl, arith, ◌⊎◌,
}
use csv_product_uploader.Prelude.Int.{pos, ◌-ℤ◌}
use csv_product_uploader.Js.Number.{finite, unit}
use csv_product_uploader.Js.Number.Whole.{magnitude}
use csv_product_uploader.Js.Text.{codes, is_digit, digits_value}
use csv_product_uploader.Js.Date.{make_date}
use csv_product_uploader.Server.Percentage.{percentage, percentage_bounds, percentage_mono}
use csv_product_uploader.Server.Csv.Rows.{parse_date}
use csv_product_uploader.Server.Csv.Dates.{
  IsNumeral, value, slashed, parse_date-slashed, parse_date_month_overflow,
}

percentage_bounds_example : (n : ℕ) × (percentage 500 1200 ≡ finite false (n * unit)) × (n ≤ 100)
percentage_bounds_example = percentage_bounds 500 1200 (omega arith) (omega arith)

percentage_mono_example : magnitude (percentage 500 1200) ≤ magnitude (percentage 1000 1200)
percentage_mono_example = percentage_mono 500 1000 1200 (omega arith) (omega arith) (omega arith)

one_digit : (c : ℕ) → is_digit c ≡ true → IsNumeral (c ∷ [])
one_digit c h = (λ e. absurd (ground arith), (h, tt))

two_digits : (c d : ℕ) → is_digit c ≡ true → is_digit d ≡ true → IsNumeral (c ∷ d ∷ [])
two_digits c d h k = (λ e. absurd (ground arith), (h, (k, tt)))

year_2025 : IsNumeral (codes "2025")
unfolding is_digit
year_2025 = (λ e. absurd (ground arith), (refl, (refl, (refl, (refl, tt)))))

year_2026 : IsNumeral (codes "2026")
unfolding is_digit
year_2026 = (λ e. absurd (ground arith), (refl, (refl, (refl, (refl, tt)))))

two_IsNumeral : IsNumeral (codes "2")
unfolding is_digit
two_IsNumeral = one_digit b'2' refl

fourteen_IsNumeral : IsNumeral (codes "14")
unfolding is_digit
fourteen_IsNumeral = two_digits b'1' b'4' refl refl

value_two : 0 < value (codes "2")
unfolding digits_value
value_two = omega arith

value_fourteen : value (codes "14") ≡ value (codes "2") + 12
unfolding digits_value
value_fourteen = refl

value_2025 : 100 ≤ value (codes "2025")
unfolding digits_value
value_2025 = omega arith

value_2026 : value (codes "2026") ≡ value (codes "2025") + 1
unfolding digits_value
value_2026 = refl

parse_date-slashed_example :
    (full : ℕ) × (((value (codes "14") < 100) × (full ≡ 2000 + value (codes "14")))
      ⊎ ((100 ≤ value (codes "14")) × (full ≡ value (codes "14"))))
    × (parse_date (slashed (codes "2") (codes "14") (codes "14"))
        ≡ some (make_date (pos full) (pos (value (codes "2")) -ℤ pos 1) (pos (value (codes "14")))))
parse_date-slashed_example =
    parse_date-slashed (codes "2") (codes "14") (codes "14") two_IsNumeral fourteen_IsNumeral
      fourteen_IsNumeral

parse_date_month_overflow_example :
    parse_date (slashed (codes "14") (codes "2") (codes "2025"))
    ≡ parse_date (slashed (codes "2") (codes "2") (codes "2026"))
parse_date_month_overflow_example =
    parse_date_month_overflow (codes "2") (codes "14") (codes "2") (codes "2025") (codes "2026")
      two_IsNumeral fourteen_IsNumeral two_IsNumeral year_2025 year_2026 value_two value_fourteen
      value_2025 value_2026
