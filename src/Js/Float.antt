-- ===== src/Js/Float.antt =====
-- `parseFloat`: the longest decimal literal at the head of a text, rounded to a double.
use csv_product_uploader.Prelude.{
  ℕ, ◌+◌, ◌-◌, ◌*◌, ◌^◌, Bool, true, false, ◌&&◌, ◌||◌, leb, ◌==◌, if◌then◌else◌, [], ◌∷◌, ◌++◌,
  length,
}
use csv_product_uploader.Js.Number.{Number, nan, infinite, of_ratio, unit}
use csv_product_uploader.Js.Text.{Text, codes, trim_start, span_digits, digits_value, split_sign}

-- Whether a text begins with another.
unfoldable pub has_prefix : Text → Text → Bool
has_prefix [] s = true
has_prefix (c ∷ p) [] = false
has_prefix (c ∷ p) (d ∷ s) = c == d && has_prefix p s

-- The part `.ddd`: its digits, and what follows.
unfoldable pub fraction : Text → Text × Text
fraction [] = ([], [])
fraction (c ∷ s) = if c == b'.' then span_digits s else ([], c ∷ s)

-- The exponent `e±ddd`, where at least one digit follows: its sign and its size.
unfoldable pub exponent : Text → Bool × ℕ
exponent [] = (false, 0)
exponent (c ∷ s) =
    let (negative, t) = split_sign s in
    if c == b'e' || c == b'E' then (negative, digits_value 0 (span_digits t).0) else (false, 0)

-- ± m * 10 ^ (± e - places), as a double.
unfoldable pub scaled : Bool → ℕ → ℕ → Bool × ℕ → Number
scaled negative m places (true, e) = of_ratio negative (m * unit) (10 ^ (places + e))
scaled negative m places (false, e) =
    if leb places e
    then of_ratio negative (m * 10 ^ (e - places) * unit) 1
    else of_ratio negative (m * unit) (10 ^ (places - e))

-- A literal with the digits `whole` and `part` round its point; without any digit it is none.
unfoldable pub decimal : Bool → Text → Text → Bool × ℕ → Number
decimal negative [] [] e = nan
decimal negative whole part e = scaled negative (digits_value 0 (whole ++ part)) (length part) e

unfoldable pub unsigned : Bool → Text → Number
unsigned negative s =
    let (whole, rest) = span_digits s in
    let (part, tail) = fraction rest in
    if has_prefix (codes "Infinity") s
    then infinite negative
    else decimal negative whole part (exponent tail)

-- `parseFloat(s)`
unfoldable pub parse_float : Text → Number
parse_float s = let (negative, t) = split_sign (trim_start s) in unsigned negative t
