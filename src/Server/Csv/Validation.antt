-- ===== src/Server/Csv/Validation.antt =====
-- Which rows `validateRows` keeps, against an independent description of a good row.
use mathlib.Core.Option
use mathlib.Core.List.{append_assoc, append-nil}
use csv_product_uploader.Prelude.{
  false, List, [], ◌∷◌, ◌++◌, take, Option, none, some, String, ◌≡◌, ◌≢◌, ◌↔◌, inl, inr, refl, sym,
  subst, ◌∙◌, arith, Option-cases,
}
use csv_product_uploader.Prelude.Int.{ℤ}
use csv_product_uploader.Js.Number.{Number, nan, infinite, finite, is_nan, is_negative}
use csv_product_uploader.Js.Text.{Text, trim}
use csv_product_uploader.Js.Date.{Date}
use csv_product_uploader.Js.Float.{parse_float}
use csv_product_uploader.Server.Csv.Readings.{
  IsPriceText, clean_price-IsPriceText, IsPriceText-clean_price, IsDateText, parse_date-IsDateText,
  IsDateText-parse_date,
}
use csv_product_uploader.Server.Csv.Rows.{
  CsvRow, ProcessedRow, ◌>>=◌, given, clean_price, accepted_price, parse_date, process_row, push,
  validate_from, validate_rows,
}

>>=-eq-some {ℓ κ} :
    {A : Type ℓ} {B : Type κ} (m : Option A) (f : A → Option B) {b : B}
    → (m >>= f) ≡ some b
    → (a : A) × (m ≡ some a) × (f a ≡ some b)
>>=-eq-some none f h = cc
>>=-eq-some (some a) f h = (a, refl, h)

-- A text of the row is there, and what it says, which is `s`, is not empty.
abbrev Holds : (Text → Text → Type 0) → Option Text → Text → Type 0
Holds Says field s = (raw : Text) × (field ≡ some raw) × Says raw s × (s ≢ [])

abbrev Trims : Text → Text → Type 0
Trims raw s = trim raw ≡ s

given-Holds :
    (f : Text → Text) (field : Option Text) (s : Text)
    → given (Option.map f field) ≡ some s
    → Holds (λ raw s. f raw ≡ s) field s
given-Holds f none s h = cc
given-Holds f (some raw) s h = (raw, refl, ground arith, ground arith)

Holds-given :
    (f : Text → Text) (field : Option Text) (s : Text)
    → Holds (λ raw s. f raw ≡ s) field s
    → given (Option.map f field) ≡ some s
Holds-given f field s (raw, e, g, n) = ground arith

price-Holds :
    (field : Option Text) (s : Text)
    → given (Option.map clean_price field) ≡ some s
    → Holds IsPriceText field s
price-Holds field s h =
    let (raw, e, c, n) = given-Holds clean_price field s h in
    (raw, e, clean_price-IsPriceText raw s c, n)

Holds-price :
    (field : Option Text) (s : Text)
    → Holds IsPriceText field s
    → given (Option.map clean_price field) ≡ some s
Holds-price field s (raw, e, p, n) =
    Holds-given clean_price field s (raw, e, IsPriceText-clean_price raw s p, n)

-- What a row says, when it is good: the three texts are there and not blank, the price, less its
-- dollar sign and with a point for its comma, is a number that is not negative, the date has three
-- parts that are whole numbers, month, day and year, and is a date of the calendar's range.
pub record Accepts (batch_id : String) (user_id : Option String) (row : CsvRow) (out : ProcessedRow)
    : Type 0 where
  pub name_text : Text
  pub price_text : Text
  pub date_text : Text
  pub name_given : Holds Trims row.name name_text
  pub price_given : Holds IsPriceText row.price price_text
  pub date_given : Holds Trims row.expiration date_text
  pub name_cut : out.name ≡ take 500 name_text
  pub price_read : parse_float price_text ≡ out.price
  pub price_number : is_nan out.price ≡ false
  pub price_not_negative : is_negative out.price ≡ false
  pub date_read : IsDateText date_text out.expiration_date
  pub batch : out.upload_batch_id ≡ batch_id
  pub user : out.user_id ≡ user_id

accepted_price_lem :
    (p q : Number)
    → accepted_price p ≡ some q
    → (p ≡ q) × (is_nan q ≡ false) × (is_negative q ≡ false)
accepted_price_lem nan q h = cc
accepted_price_lem (infinite s) q h = ground arith
accepted_price_lem (finite s m) q h = ground arith

Accepts-of_parts :
    {batch_id : String} {user_id : Option String} {row : CsvRow} {out : ProcessedRow}
    (name price date : Text) (amount : Number) (day : Date) (n : ℤ)
    → Holds Trims row.name name
    → Holds IsPriceText row.price price
    → Holds Trims row.expiration date
    → accepted_price (parse_float price) ≡ some amount
    → parse_date date ≡ some day
    → day ≡ some n
    → ◌≡◌ {A = Option ProcessedRow}
        (some (record {
          name = take 500 name;
          price = amount;
          expiration_date = n;
          upload_batch_id = batch_id;
          user_id = user_id;
        }))
        (some out)
    → Accepts batch_id user_id row out
Accepts-of_parts {out} name price date amount day n hn hp hd ha hy hz e =
    let (same, number, sign) = accepted_price_lem (parse_float price) amount ha in
    let paid : amount ≡ out.price = cc in
    record {
      name_text = name;
      price_text = price;
      date_text = date;
      name_given = hn;
      price_given = hp;
      date_given = hd;
      name_cut = cc;
      price_read = same ∙ paid;
      price_number = rw (← paid) number;
      price_not_negative = rw (← paid) sign;
      date_read = parse_date-IsDateText date out.expiration_date cc;
      batch = cc;
      user = cc;
    }

process_row-Accepts :
    (batch_id : String) (user_id : Option String) (row : CsvRow) (out : ProcessedRow)
    → process_row batch_id user_id row ≡ some out
    → Accepts batch_id user_id row out
unfolding process_row
process_row-Accepts batch_id user_id row out h =
    let (name, hn, h1) = >>=-eq-some (given (Option.map trim row.name)) _ h in
    let (price, hp, h2) = >>=-eq-some (given (Option.map clean_price row.price)) _ h1 in
    let (date, hd, h3) = >>=-eq-some (given (Option.map trim row.expiration)) _ h2 in
    let (amount, ha, h4) = >>=-eq-some (accepted_price (parse_float price)) _ h3 in
    let (day, hy, h5) = >>=-eq-some (parse_date date) _ h4 in
    let (n, hz, h6) = >>=-eq-some day _ h5 in
    Accepts-of_parts name price date amount day n (given-Holds trim row.name name hn)
      (price-Holds row.price price hp) (given-Holds trim row.expiration date hd) ha hy hz h6

Accepts-process_row :
    {batch_id : String} {user_id : Option String} {row : CsvRow} {out : ProcessedRow}
    → Accepts batch_id user_id row out
    → process_row batch_id user_id row ≡ some out
unfolding process_row
Accepts-process_row {batch_id} {user_id} {row} {out} a =
    rw
      (
        Holds-given trim row.name a.name_text a.name_given,
        Holds-price row.price a.price_text a.price_given,
        Holds-given trim row.expiration a.date_text a.date_given,
        a.price_read,
        a.price_number,
        a.price_not_negative,
        IsDateText-parse_date a.date_text out.expiration_date a.date_read,
      )
      (cc)

-- The rows that are kept, with what becomes of them, in the order of the file; a row is left out
-- only if no product accepts it.
pub data Validated (batch_id : String) (user_id : Option String)
    : List CsvRow → List ProcessedRow → Type 0 where
  done : Validated batch_id user_id [] []
  keep :
      {row : CsvRow} {out : ProcessedRow} {rows : List CsvRow} {outs : List ProcessedRow}
      → Accepts batch_id user_id row out
      → Validated batch_id user_id rows outs
      → Validated batch_id user_id (row ∷ rows) (out ∷ outs)
  skip :
      {row : CsvRow} {rows : List CsvRow} {outs : List ProcessedRow}
      → ((out : ProcessedRow) → ¬ Accepts batch_id user_id row out)
      → Validated batch_id user_id rows outs
      → Validated batch_id user_id (row ∷ rows) outs

-- The same without an accumulator.
valid : String → Option String → List CsvRow → List ProcessedRow
valid batch_id user_id [] = []
valid batch_id user_id (row ∷ rows) =
    push [] (process_row batch_id user_id row) ++ valid batch_id user_id rows

push-append : (acc : List ProcessedRow) (o : Option ProcessedRow) → push acc o ≡ acc ++ push [] o
push-append acc none = sym (append-nil acc)
push-append acc (some r) = refl

validate_from-valid :
    (batch_id : String) (user_id : Option String) (acc : List ProcessedRow) (rows : List CsvRow)
    → validate_from batch_id user_id acc rows ≡ acc ++ valid batch_id user_id rows
unfolding validate_from valid
validate_from-valid b u acc [] = sym (append-nil acc)
validate_from-valid b u acc (row ∷ rows) =
    validate_from-valid b u (push acc (process_row b u row)) rows
    ∙ (rw (push-append acc (process_row b u row))
        (append_assoc acc (push [] (process_row b u row)) (valid b u rows)))

none-ne-some {ℓ} : {A : Type ℓ} {a : A} → ◌≡◌ {A = Option A} none (some a) → ⊥
none-ne-some e = cc

valid-Validated :
    (b : String) (u : Option String) (rows : List CsvRow) → Validated b u rows (valid b u rows)
unfolding valid
valid-Validated b u [] = done
valid-Validated b u (row ∷ rows) = elim (Option-cases (process_row b u row)) [
  | inl e ↦
      rw e (skip (λ out a. none-ne-some (sym e ∙ Accepts-process_row a)) (valid-Validated b u rows))
  | inr (out, e) ↦ rw e (keep (process_row-Accepts b u row out e) (valid-Validated b u rows))
]

Validated-valid :
    {b : String} {u : Option String} {rows : List CsvRow} {outs : List ProcessedRow}
    → Validated b u rows outs
    → valid b u rows ≡ outs
unfolding valid
Validated-valid done = refl
Validated-valid (keep a v) = rw (Accepts-process_row a, Validated-valid v)
Validated-valid {b} {u} (skip {row} n v) = elim (Option-cases (process_row b u row)) [
  | inl e ↦ rw e (Validated-valid v)
  | inr (out, e) ↦ absurd (n out (process_row-Accepts b u row out e))
]

-- `validateRows` returns exactly the products of the good rows, in the order of the file: its result
-- is `outs` if and only if `outs` arises from `rows` by keeping each good row, with the name, the price
-- and the date that it says, and skipping the others.
pub validate_rows_iff :
    (rows : List CsvRow) (batch_id : String) (user_id : Option String) (outs : List ProcessedRow)
    → (validate_rows rows batch_id user_id ≡ outs) ↔ Validated batch_id user_id rows outs
unfolding validate_rows
validate_rows_iff rows b u outs =
    let e = validate_from-valid b u [] rows in
    (
      (λ h. subst (Validated b u rows) (sym e ∙ h) (valid-Validated b u rows)),
      (λ v. e ∙ Validated-valid v),
    )
