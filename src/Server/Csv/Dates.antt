-- ===== src/Server/Csv/Dates.antt =====
-- jobs/csv.processor.ts, `parseDate`, on dates that are written with digits.
use mathlib.Core.List.{append-nil, append_assoc, reverse, reverse-cons}
use csv_product_uploader.Prelude.{
  ℕ, suc, zero, ◌+◌, ◌-◌, ◌/◌, ◌%◌, ◌≤◌, ◌<◌, true, false, [], ◌∷◌, ◌++◌, some, ◌≡◌, ◌≢◌, refl, ap,
  arith, All, ◌==◌, ltb, ltb→lt, Bool-cases, ◌⊎◌, inl, inr,
}
use csv_product_uploader.Prelude.Int.{ℤ, pos, ◌-ℤ◌, ◌+ℤ◌, floor_div, floor_mod, int_laws}
use csv_product_uploader.Js.Text.{
  Text, is_space, is_digit, trim_start, span_digits, digits_value, split_sign, signed, integer_of,
  parse_int, split_from, split,
}
use csv_product_uploader.Js.Date.{make_day, make_date, full_year}
use csv_product_uploader.Server.Csv.Rows.{century, date_of_parts, parse_date}

-- A text of one digit or more.
abbrev pub IsNumeral : Text → Type 0
IsNumeral t = (t ≢ []) × All (λ c. is_digit c ≡ true) t

abbrev pub value : Text → ℕ
value t = digits_value 0 t

digit_range : (c : ℕ) → is_digit c ≡ true → (47 < c) × (c < 58)
unfolding is_digit
digit_range c h = ground arith

digit-not-space : (c : ℕ) → (47 < c) × (c < 58) → is_space c ≡ false
unfolding is_space
digit-not-space c h = ground arith

trim_start-digit : (c : ℕ) (s : Text) → is_digit c ≡ true → trim_start (c ∷ s) ≡ c ∷ s
unfolding trim_start
trim_start-digit c s h = rw (digit-not-space c (digit_range c h))

split_sign-digit : (c : ℕ) (s : Text) → is_digit c ≡ true → split_sign (c ∷ s) ≡ (false, c ∷ s)
unfolding split_sign
split_sign-digit c s h = ground (arith, digit_range c h)

span_digits-numeral : (t : Text) → All (λ c. is_digit c ≡ true) t → span_digits t ≡ (t, [])
unfolding span_digits
span_digits-numeral [] h = refl
span_digits-numeral (c ∷ t) h = rw (h.0, span_digits-numeral t h.1)

signed-pos : (n : ℕ) → signed false n ≡ pos n
unfolding signed
signed-pos zero = refl
signed-pos (suc n) = refl

parse_int-numeral : (t : Text) → IsNumeral t → parse_int t ≡ some (pos (value t))
unfolding parse_int integer_of
parse_int-numeral [] h = absurd (h.0 refl)
parse_int-numeral (c ∷ t) h =
    rw (trim_start-digit c t h.1.0, split_sign-digit c t h.1.0, span_digits-numeral (c ∷ t) h.1)
      (ap some (signed-pos (value (c ∷ t))))

pub beq-ne : (d c : ℕ) → d ≢ c → (d == c) ≡ false
beq-ne d c h = ground arith

pub regroup : (d : ℕ) (part t : Text) → reverse (d ∷ part) ++ t ≡ reverse part ++ d ∷ t
regroup d part t = simp (reverse-cons, append_assoc)

split_from-append :
    (c : ℕ) (part t s : Text)
    → All (λ d. d ≢ c) t
    → split_from c part (t ++ c ∷ s) ≡ (reverse part ++ t) ∷ split_from c [] s
unfolding split_from
split_from-append c part [] s h = ground (arith, append-nil (reverse part))
split_from-append c part (d ∷ t) s h =
    rw (beq-ne d c h.0, split_from-append c (d ∷ part) t s h.1, regroup d part t)

split_from-last :
    (c : ℕ) (part t : Text) → All (λ d. d ≢ c) t → split_from c part t ≡ (reverse part ++ t) ∷ []
unfolding split_from
split_from-last c part [] h = ground (arith, append-nil (reverse part))
split_from-last c part (d ∷ t) h =
    rw (beq-ne d c h.0, split_from-last c (d ∷ part) t h.1, regroup d part t)

slash-not-digit : (c : ℕ) → (47 < c) × (c < 58) → c ≢ b'/'
slash-not-digit c h = omega arith

digits-no-slash : (t : Text) → All (λ c. is_digit c ≡ true) t → All (λ d. d ≢ b'/') t
digits-no-slash [] h = tt
digits-no-slash (c ∷ t) h = (slash-not-digit c (digit_range c h.0), digits-no-slash t h.1)

-- The text `month/day/year`.
abbrev pub slashed : Text → Text → Text → Text
slashed m d y = m ++ b'/' ∷ (d ++ b'/' ∷ y)

pub split-slashes :
    (m d y : Text)
    → All (λ c. c ≢ b'/') m
    → All (λ c. c ≢ b'/') d
    → All (λ c. c ≢ b'/') y
    → split b'/' (slashed m d y) ≡ m ∷ d ∷ y ∷ []
unfolding split
split-slashes m d y hm hd hy = rw (
  split_from-append b'/' [] m (d ++ b'/' ∷ y) hm,
  split_from-append b'/' [] d y hd,
  split_from-last b'/' [] y hy,
)

split-slashed :
    (m d y : Text)
    → IsNumeral m
    → IsNumeral d
    → IsNumeral y
    → split b'/' (slashed m d y) ≡ m ∷ d ∷ y ∷ []
split-slashed m d y hm hd hy =
    split-slashes m d y (digits-no-slash m hm.1) (digits-no-slash d hd.1) (digits-no-slash y hy.1)

parse_date-parts :
    (m d y : Text)
    → IsNumeral m
    → IsNumeral d
    → IsNumeral y
    → parse_date (slashed m d y)
      ≡ some (make_date (century (pos (value y))) (pos (value m) -ℤ pos 1) (pos (value d)))
unfolding parse_date date_of_parts
parse_date-parts m d y hm hd hy = rw (
  split-slashed m d y hm hd hy,
  date_of_parts,
  parse_int-numeral m hm,
  parse_int-numeral d hd,
  parse_int-numeral y hy,
)

century-full :
    (y : ℕ)
    → (full : ℕ) × (century (pos y) ≡ pos full)
      × (((y < 100) × (full ≡ 2000 + y)) ⊎ ((100 ≤ y) × (full ≡ y)))
unfolding century
century-full y = elim (Bool-cases (ltb y 100)) [
  | inl early ↦ rw early (2000 + y, refl, inl (ltb→lt y 100 early, refl))
  | inr late ↦ rw late (y, refl, inr (ground arith, refl))
]

-- A date written as three numerals `month/day/year` is read as the day of these numbers: a year
-- below 100 counts from 2000, any other is taken as it is, and the month is counted from 0 for the
-- constructor of `Date`.
pub parse_date-slashed :
    (m d y : Text)
    → IsNumeral m
    → IsNumeral d
    → IsNumeral y
    → (full : ℕ) × (((value y < 100) × (full ≡ 2000 + value y))
        ⊎ ((100 ≤ value y) × (full ≡ value y)))
      × (parse_date (slashed m d y)
          ≡ some (make_date (pos full) (pos (value m) -ℤ pos 1) (pos (value d))))
parse_date-slashed m d y hm hd hy =
    let (full, e, which) = century-full (value y) in
    (full, which, rw (← e) (parse_date-parts m d y hm hd hy))

carry : (y : ℤ) (k : ℕ) → y +ℤ pos (k + 1) ≡ y +ℤ pos 1 +ℤ pos k
carry y k = omega int_laws

make_day_overflow :
    (y : ℤ) (m : ℕ) (d : ℤ) → make_day y (pos (m + 12)) d ≡ make_day (y +ℤ pos 1) (pos m) d
unfolding make_day floor_div floor_mod
make_day_overflow y m d =
    let q : (m + 12) / 12 ≡ m / 12 + 1 = omega arith in
    let r : (m + 12) % 12 ≡ m % 12 = omega arith in rw (q, r, carry y (m / 12))

year_read : (y : ℕ) → 100 ≤ y → full_year (century (pos y)) ≡ pos y
unfolding full_year century
year_read y h = ground arith

before : (m : ℕ) → 0 < m → pos m -ℤ pos 1 ≡ pos (m - 1)
unfolding ◌-ℤ◌
before m h = ground arith

after : (y : ℕ) → pos y +ℤ pos 1 ≡ pos (y + 1)
unfolding ◌+ℤ◌
after y = ground arith

make_date_overflow :
    (y m : ℕ) (d : ℤ)
    → 100 ≤ y
    → 0 < m
    → make_date (century (pos y)) (pos (m + 12) -ℤ pos 1) d
      ≡ make_date (century (pos (y + 1))) (pos m -ℤ pos 1) d
unfolding make_date
make_date_overflow y m d h k =
    let e : m + 12 - 1 ≡ m - 1 + 12 = omega arith in
    rw (
      year_read y h,
      year_read (y + 1) (omega arith),
      before (m + 12) (omega arith),
      before m k,
      e,
      make_day_overflow (pos y) (m - 1) d,
      after y,
    )

-- A month after December is not refused but carries into the next year: for a year of at least 100,
-- the month m + 12 of a year is read as the month m of the year after it.
pub parse_date_month_overflow :
    (m n d y z : Text)
    → IsNumeral m
    → IsNumeral n
    → IsNumeral d
    → IsNumeral y
    → IsNumeral z
    → 0 < value m
    → value n ≡ value m + 12
    → 100 ≤ value y
    → value z ≡ value y + 1
    → parse_date (slashed n d y) ≡ parse_date (slashed m d z)
parse_date_month_overflow m n d y z hm hn hd hy hz pm en py ez = rw (
  parse_date-parts n d y hn hd hy,
  parse_date-parts m d z hm hd hz,
  en,
  ez,
  make_date_overflow (value y) (value m) (pos (value d)) py pm,
)
