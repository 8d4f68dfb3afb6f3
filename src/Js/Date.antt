-- ===== src/Js/Date.antt =====
-- `new Date(year, month, day)` and the test of its time value. A date is counted in days since
-- 1970-01-01, in the local time of a server whose clock runs on UTC; `none` is an invalid date.
use csv_product_uploader.Prelude.{
  ℕ, ◌+◌, Bool, true, ◌&&◌, leb, ◌==◌, if◌then◌else◌, Option, none, some, ◌≡◌, refl,
}
use csv_product_uploader.Prelude.Int.{
  ℤ, pos, negsuc, ◌+ℤ◌, ◌-ℤ◌, ◌*ℤ◌, floor_div, floor_mod, pos_part, neg_part,
}

abbrev pub Date : Type 0
Date = Option ℤ

-- The day on which a year begins (DayFromYear of the language's specification).
unfoldable pub year_start : ℤ → ℤ
year_start y =
    365 *ℤ (y -ℤ pos 1970)
    +ℤ floor_div (y -ℤ pos 1969) 4
    -ℤ floor_div (y -ℤ pos 1901) 100
    +ℤ floor_div (y -ℤ pos 1601) 400

unfoldable pub is_leap : ℤ → Bool
is_leap y = floor_mod y 4 == 0 && (if floor_mod y 100 == 0 then floor_mod y 400 == 0 else true)

-- Days before a month (0 to 11) of a year that is not a leap year.
unfoldable pub month_start : ℕ → ℕ
month_start m =
    if m == 0
    then 0
    else if m == 1
    then 31
    else if m == 2
    then 59
    else if m == 3
    then 90
    else if m == 4
    then 120
    else if m == 5
    then 151
    else if m == 6
    then 181
    else if m == 7
    then 212
    else if m == 8
    then 243
    else if m == 9
    then 273
    else if m == 10
    then 304
    else 334

unfoldable pub leap_day : ℤ → ℕ → ℕ
leap_day y m = if is_leap y && leb 2 m then 1 else 0

-- The day number of the first of a month, the year and the month normalised.
unfoldable pub month_day : ℤ → ℕ → ℤ
month_day y m = year_start y +ℤ pos (month_start m + leap_day y m)

-- MakeDay: a month out of 0 to 11 carries into the year, a day out of the month into other months.
unfoldable pub make_day : ℤ → ℤ → ℤ → ℤ
make_day y m d = month_day (y +ℤ floor_div m 12) (floor_mod m 12) +ℤ (d -ℤ pos 1)

-- A time value is valid within 100,000,000 days of 1970-01-01.
unfoldable pub time_clip : ℤ → Date
time_clip d = if leb (pos_part d) 100000000 && leb (neg_part d) 100000000 then some d else none

-- The years 0 to 99 stand for 1900 to 1999.
unfoldable pub full_year : ℤ → ℤ
full_year (pos y) = if leb y 99 then pos (1900 + y) else pos y
full_year (negsuc y) = negsuc y

-- `new Date(year, month, day)`, the month counted from 0.
unfoldable pub make_date : ℤ → ℤ → ℤ → Date
make_date y m d = time_clip (make_day (full_year y) m d)

millennium : make_date (pos 2000) (pos 0) (pos 1) ≡ some (pos 10957)
unfolding make_date make_day month_day year_start month_start leap_day is_leap time_clip full_year
    ◌+ℤ◌ ◌-ℤ◌ ◌*ℤ◌ floor_div floor_mod
millennium = refl

before_epoch : make_date (pos 1969) (pos 1) (pos 31) ≡ some (negsuc 303)
unfolding make_date make_day month_day year_start month_start leap_day is_leap time_clip full_year
    ◌+ℤ◌ ◌-ℤ◌ ◌*ℤ◌ floor_div floor_mod
before_epoch = refl
