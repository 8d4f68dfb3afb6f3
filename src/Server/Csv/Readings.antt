-- ===== src/Server/Csv/Readings.antt =====
-- jobs/csv.processor.ts, `validateRows` and `parseDate`: what the texts of a price and of a date say,
-- described without the code's own helpers.
use mathlib.Core.List.{append-nil, reverse, reverse-cons}
use csv_product_uploader.Prelude.{
  ℕ, ◌+◌, ◌<◌, ◌≤◌, ◌==◌, ==_iff, true, false, ltb, ltb→lt, lt→ltb, List, [], ◌∷◌, ◌++◌, All,
  All-append, Option, none, some, ◌≡◌, ◌≢◌, refl, sym, ap, ◌∙◌, subst, arith, Bool-cases, inl, inr,
}
use csv_product_uploader.Prelude.Int.{ℤ, pos, negsuc, ◌-ℤ◌, ◌+ℤ◌}
use csv_product_uploader.Js.Text.{Text, trim, replace, split, split_from, parse_int}
use csv_product_uploader.Js.Date.{make_date}
use csv_product_uploader.Server.Csv.Rows.{◌>>=◌, century, date_of_parts, parse_date, clean_price}
use csv_product_uploader.Server.Csv.Dates.{slashed, split-slashes, regroup, beq-ne}

-- `c` does not stand in the text.
abbrev pub Lacks : ℕ → Text → Type 0
Lacks c s = All (λ d. d ≢ c) s

-- The first `c` of a text, if it has one, becomes `by`.
pub data Replaced (c : ℕ) (by s t : Text) : Type 0 where
  absent : Lacks c s → t ≡ s → Replaced c by s t
  present :
      (before after : Text)
      → Lacks c before
      → s ≡ before ++ c ∷ after
      → t ≡ before ++ (by ++ after)
      → Replaced c by s t

cons-Replaced :
    (c : ℕ) (by : Text) (d : ℕ) (s t : Text)
    → d ≢ c
    → Replaced c by s t
    → Replaced c by (d ∷ s) (d ∷ t)
cons-Replaced c by d s t n (absent l e) = absent (n, l) (ap (λ (x : Text). d ∷ x) e)
cons-Replaced c by d s t n (present a b l e f) =
    present (d ∷ a) b (n, l) (ap (λ (x : Text). d ∷ x) e) (ap (λ (x : Text). d ∷ x) f)

==-false : (d c : ℕ) → (d == c) ≡ false → d ≢ c
==-false d c h = ground arith

pub replace-Replaced : (c : ℕ) (by s : Text) → Replaced c by s (replace c by s)
unfolding replace
replace-Replaced c by [] = absent tt refl
replace-Replaced c by (d ∷ s) = elim (Bool-cases (d == c)) [
  | inl same ↦ rw same (present [] s tt (ap (λ (x : ℕ). x ∷ s) ((==_iff d c).0 same)) refl)
  | inr other ↦ rw other (cons-Replaced c by d s _ (==-false d c other) (replace-Replaced c by s))
]

replace-absent : (c : ℕ) (by s : Text) → Lacks c s → replace c by s ≡ s
unfolding replace
replace-absent c by [] l = refl
replace-absent c by (d ∷ s) (n, l) = rw (beq-ne d c n, replace-absent c by s l) refl

==-refl : (c : ℕ) → (c == c) ≡ true
==-refl c = (==_iff c c).1 refl

replace-present : (c : ℕ) (by a b : Text) → Lacks c a → replace c by (a ++ c ∷ b) ≡ a ++ (by ++ b)
unfolding replace
replace-present c by [] b l = rw (==-refl c) refl
replace-present c by (d ∷ a) b (n, l) = rw (beq-ne d c n, replace-present c by a b l) refl

pub Replaced-replace : (c : ℕ) (by s t : Text) → Replaced c by s t → replace c by s ≡ t
Replaced-replace c by s t (absent l e) = replace-absent c by s l ∙ sym e
Replaced-replace c by s t (present a b l e f) =
    ap (replace c by) e ∙ (replace-present c by a b l ∙ sym f)

-- The text of a price: the first dollar sign is left out, the first comma is read as a point, and the
-- blanks around the rest are left out.
pub record IsPriceText (raw s : Text) : Type 0 where
  pub without_dollar : Text
  pub with_point : Text
  pub dollar : Replaced b'$' [] raw without_dollar
  pub comma : Replaced b',' (b'.' ∷ []) without_dollar with_point
  pub trimmed : trim with_point ≡ s

pub clean_price-IsPriceText : (raw s : Text) → clean_price raw ≡ s → IsPriceText raw s
unfolding clean_price
clean_price-IsPriceText raw s e = record {
  without_dollar = replace b'$' [] raw;
  with_point = replace b',' (b'.' ∷ []) (replace b'$' [] raw);
  dollar = replace-Replaced b'$' [] raw;
  comma = replace-Replaced b',' (b'.' ∷ []) (replace b'$' [] raw);
  trimmed = e;
}

pub IsPriceText-clean_price : (raw s : Text) → IsPriceText raw s → clean_price raw ≡ s
unfolding clean_price
IsPriceText-clean_price raw s p =
    rw
      (
        Replaced-replace b'$' [] raw p.without_dollar p.dollar,
        Replaced-replace b',' (b'.' ∷ []) p.without_dollar p.with_point p.comma,
      )
      p.trimmed

-- A year below 100, also a negative one, counts from 2000.
pub data IsFullYear : ℤ → ℤ → Type 0 where
  as_written : (y : ℕ) → 100 ≤ y → IsFullYear (pos y) (pos y)
  of_this_century : (y : ℕ) → y < 100 → IsFullYear (pos y) (pos (2000 + y))
  before_it : (n : ℕ) → IsFullYear (negsuc n) (pos 2000 +ℤ negsuc n)

century-IsFullYear : (y : ℤ) → IsFullYear y (century y)
unfolding century
century-IsFullYear (pos y) = elim (Bool-cases (ltb y 100)) [
  | inl early ↦ rw early (of_this_century y (ltb→lt y 100 early))
  | inr late ↦ rw late (as_written y (ground arith))
]
century-IsFullYear (negsuc n) = before_it n

not_early : (y : ℕ) → 100 ≤ y → ltb y 100 ≡ false
not_early y h = ground arith

IsFullYear-century : {y z : ℤ} → IsFullYear y z → century y ≡ z
unfolding century
IsFullYear-century (as_written y h) = rw (not_early y h) refl
IsFullYear-century (of_this_century y h) = rw (lt→ltb y 100 h) refl
IsFullYear-century (before_it n) = refl

-- The text of a date: month, day and year between two slashes, each read as a whole number, and a day
-- of the calendar.
pub record IsDateText (s : Text) (n : ℤ) : Type 0 where
  pub m : Text
  pub d : Text
  pub y : Text
  pub written : s ≡ slashed m d y
  pub m_whole : Lacks b'/' m
  pub d_whole : Lacks b'/' d
  pub y_whole : Lacks b'/' y
  pub month : ℤ
  pub day : ℤ
  pub year : ℤ
  pub full : ℤ
  pub month_read : parse_int m ≡ some month
  pub day_read : parse_int d ≡ some day
  pub year_read : parse_int y ≡ some year
  pub full_year : IsFullYear year full
  pub of_calendar : make_date full (month -ℤ pos 1) day ≡ some n

-- A text is parts with `c` between them.
abbrev Joins : ℕ → Text → List Text → Type 0
Joins c s [] = ⊥
Joins c s (a ∷ []) = (s ≡ a) × Lacks c a
Joins c s (a ∷ b ∷ ps) = (rest : Text) × (s ≡ a ++ c ∷ rest) × Lacks c a × Joins c rest (b ∷ ps)

cons-Joins :
    (c : ℕ) (a rest : Text) (ps : List Text)
    → Lacks c a
    → Joins c rest ps
    → Joins c (a ++ c ∷ rest) (a ∷ ps)
cons-Joins c a rest [] l j = absurd j
cons-Joins c a rest (b ∷ ps) l j = (rest, refl, l, j)

split_from-Joins :
    (c : ℕ) (part s : Text)
    → Lacks c (reverse part)
    → Joins c (reverse part ++ s) (split_from c part s)
unfolding split_from
split_from-Joins c part [] l = (append-nil (reverse part), l)
split_from-Joins c part (d ∷ s) l = elim (Bool-cases (d == c)) [
  | inl same ↦
      rw (same, (==_iff d c).0 same)
        (cons-Joins c (reverse part) s (split_from c [] s) l (split_from-Joins c [] s tt))
  | inr other ↦ rw other (
      subst (λ (x : Text). Joins c x (split_from c (d ∷ part) s)) (regroup d part s)
        (split_from-Joins c (d ∷ part) s (
          rw (reverse-cons d part)
            (All-append (λ x. x ≢ c) (reverse part) (d ∷ []) l (==-false d c other, tt)))))
]

some_of {ℓ κ} :
    {A : Type ℓ} {B : Type κ} (o : Option A) (f : A → Option B) {b : B}
    → (o >>= f) ≡ some b
    → (a : A) × (o ≡ some a) × (f a ≡ some b)
some_of none f h = cc
some_of (some a) f h = (a, refl, h)

some_inj {ℓ} : {A : Type ℓ} {a b : A} → ◌≡◌ {A = Option A} (some a) (some b) → a ≡ b
some_inj e = cc

parts-IsDateText :
    (s : Text) (ps : List Text) (n : ℤ)
    → Joins b'/' s ps
    → date_of_parts ps ≡ some (some n)
    → IsDateText s n
unfolding date_of_parts
parts-IsDateText s [] n j h = absurd j
parts-IsDateText s (a ∷ []) n j h = cc
parts-IsDateText s (a ∷ b ∷ []) n j h = cc
parts-IsDateText s (a ∷ b ∷ c ∷ e ∷ ps) n j h = cc
parts-IsDateText s (a ∷ b ∷ c ∷ []) n (r, e1, l1, (r2, e2, l2, (e3, l3))) h =
    let (month, hm, h1) = some_of (parse_int a) _ h in
    let (day, hd, h2) = some_of (parse_int b) _ h1 in
    let (year, hy, h3) = some_of (parse_int c) _ h2 in
    record {
      m = a;
      d = b;
      y = c;
      written = e1 ∙ ap (λ (x : Text). a ++ b'/' ∷ x) (e2 ∙ ap (λ (x : Text). b ++ b'/' ∷ x) e3);
      m_whole = l1;
      d_whole = l2;
      y_whole = l3;
      month = month;
      day = day;
      year = year;
      full = century year;
      month_read = hm;
      day_read = hd;
      year_read = hy;
      full_year = century-IsFullYear year;
      of_calendar = some_inj h3;
    }

pub parse_date-IsDateText : (s : Text) (n : ℤ) → parse_date s ≡ some (some n) → IsDateText s n
unfolding parse_date split
parse_date-IsDateText s n h = parts-IsDateText s (split b'/' s) n (split_from-Joins b'/' [] s tt) h

pub IsDateText-parse_date : (s : Text) (n : ℤ) → IsDateText s n → parse_date s ≡ some (some n)
unfolding parse_date date_of_parts
IsDateText-parse_date s n t =
    rw
      (
        t.written,
        split-slashes t.m t.d t.y t.m_whole t.d_whole t.y_whole,
        date_of_parts,
        t.month_read,
        t.day_read,
        t.year_read,
        IsFullYear-century t.full_year,
        t.of_calendar,
      )
      refl
