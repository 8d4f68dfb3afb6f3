-- ===== src/Server/Csv/Rows.antt =====
-- jobs/csv.processor.ts, `validateRows` and `parseDate`: from the rows of a file to products.
use csv_product_uploader.Prelude.{
  ◌+◌, ◌||◌, ltb, if◌then◌else◌, List, [], ◌∷◌, ◌++◌, take, Option, none, some, String,
}
use mathlib.Core.Option
use csv_product_uploader.Prelude.Int.{ℤ, pos, negsuc, ◌-ℤ◌, ◌+ℤ◌}
use csv_product_uploader.Js.Number.{Number, is_nan, is_negative}
use csv_product_uploader.Js.Text.{Text, trim, replace, split, parse_int}
use csv_product_uploader.Js.Float.{parse_float}
use csv_product_uploader.Js.Date.{Date, make_date}

-- A row as csv-parser gives it; a column that the file does not have is missing.
pub record CsvRow : Type 0 where
  pub name : Option Text
  pub price : Option Text
  pub expiration : Option Text

pub record ProcessedRow : Type 0 where
  pub name : Text
  pub price : Number
  pub expiration_date : ℤ
  pub upload_batch_id : String
  pub user_id : Option String

infixl 5 ◌>>=◌
abbrev pub ◌>>=◌ {ℓ κ} : {A : Type ℓ} {B : Type κ} → Option A → (A → Option B) → Option B
none >>= k = none
some a >>= k = k a

-- `year < 100 ? 2000 + year : year`
unfoldable pub century : ℤ → ℤ
century (pos y) = if ltb y 100 then pos (2000 + y) else pos y
century (negsuc y) = pos 2000 +ℤ negsuc y

-- The parts of a date, which `split` gives: month, day, year.
unfoldable pub date_of_parts : List Text → Option Date
date_of_parts (m ∷ d ∷ y ∷ []) = do
  month ← parse_int m
  day ← parse_int d
  year ← parse_int y
  some (make_date (century year) (month -ℤ pos 1) day)
date_of_parts parts = none

-- `parseDate`: `none` is null, `some none` an invalid date.
unfoldable pub parse_date : Text → Option Date
parse_date s = date_of_parts (split b'/' s)

-- `!value` on a text that may be missing.
abbrev pub given : Option Text → Option Text
given none = none
given (some []) = none
given (some (c ∷ s)) = some (c ∷ s)

unfoldable pub clean_price : Text → Text
clean_price s = trim (replace b',' (b'.' ∷ []) (replace b'$' [] s))

-- `isNaN(price) || price < 0` skips the row.
abbrev pub accepted_price : Number → Option Number
accepted_price p = if is_nan p || is_negative p then none else some p

-- One round of the loop of `validateRows`; `none` is `continue`.
unfoldable pub process_row : String → Option String → CsvRow → Option ProcessedRow
process_row batch_id user_id row = do
  name ← given (Option.map trim row.name)
  price_str ← given (Option.map clean_price row.price)
  expiration_str ← given (Option.map trim row.expiration)
  price ← accepted_price (parse_float price_str)
  date ← parse_date expiration_str
  expiration_date ← date
  some (record {
    name = take 500 name;
    price = price;
    expiration_date = expiration_date;
    upload_batch_id = batch_id;
    user_id = user_id;
  })

-- `validRows.push(…)`
abbrev pub push : List ProcessedRow → Option ProcessedRow → List ProcessedRow
push valid none = valid
push valid (some r) = valid ++ r ∷ []

unfoldable pub validate_from :
    String → Option String → List ProcessedRow → List CsvRow → List ProcessedRow
validate_from batch_id user_id valid [] = valid
validate_from batch_id user_id valid (row ∷ rows) =
    validate_from batch_id user_id (push valid (process_row batch_id user_id row)) rows

unfoldable pub validate_rows : List CsvRow → String → Option String → List ProcessedRow
validate_rows rows batch_id user_id = validate_from batch_id user_id [] rows
