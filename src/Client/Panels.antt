-- ===== src/Client/Panels.antt =====
-- components/ProgressBar.tsx, components/BatchList.tsx, components/upload/UploadView.tsx and the
-- rows of components/ProductTable.tsx: what they show, without their markup. A number or a date is
-- kept as it is.
pub mod Offers
pub mod Amounts
use csv_product_uploader.Prelude.{
  ℕ, Bool, true, false, ◌&&◌, not, if◌then◌else◌, ltb, List, [], ◌∷◌, map, take, length, ◌==◌,
  Option, none, some, String, str_eq,
}
use csv_product_uploader.Js.Number.{Number, of_ℕ}
use csv_product_uploader.Js.Text.{Text}
use csv_product_uploader.Server.Entities.{
  UploadBatch, ProgressEvent, BatchStatus, pending, processing, completed, failed, or_null,
}
use csv_product_uploader.Server.Products.{Product, ProductWithRates}
use csv_product_uploader.Client.Dashboard.{
  Event, products_viewed, progress_viewed, file_cleared, upload_started,
}

-- `ProgressBar`
pub record ProgressCard : Type 0 where
  pub title : String
  pub subtitle : String
  pub percentage : Number
  pub shimmers : Bool
  pub processed_rows : ℕ
  pub total_rows : ℕ
  pub status : BatchStatus
  pub error : Option String

pub data ProgressBox : Type 0 where
  connecting : ProgressBox
  card : ProgressCard → ProgressBox

abbrev pub title_of : BatchStatus → String
title_of completed = "Processing Complete"
title_of failed = "Processing Failed"
title_of _ = "Processing File"

abbrev pub subtitle_of : BatchStatus → String
subtitle_of completed = "All rows imported successfully"
subtitle_of failed = "An error occurred"
subtitle_of _ = "Please keep this window open"

abbrev pub shimmer : BatchStatus → Bool
shimmer completed = false
shimmer failed = false
shimmer _ = true

-- `isFailed && progress.errorMessage`
abbrev pub failure_of : BatchStatus → Option String → Option String
failure_of failed e = or_null e
failure_of _ e = none

unfoldable pub progress_bar : Option ProgressEvent → ProgressBox
progress_bar none = connecting
progress_bar (some e) = card (record {
  title = title_of e.status;
  subtitle = subtitle_of e.status;
  percentage = e.percentage;
  shimmers = shimmer e.status;
  processed_rows = e.processed_rows;
  total_rows = e.total_rows;
  status = e.status;
  error = failure_of e.status e.error_message;
})

-- `actionButton`: the text of the button, and the event of the dashboard.
abbrev pub action_button : BatchStatus → String → Option (String × Event)
action_button completed id = some ("View Products", products_viewed id)
action_button processing id = some ("View Progress", progress_viewed id)
action_button _ id = none

-- `productCount`: the total, or the rows processed out of it.
abbrev pub product_count : BatchStatus → ℕ → ℕ → Option ℕ × ℕ
product_count processing processed total = (some processed, total)
product_count _ processed total = (none, total)

abbrev pub status_badge : BatchStatus → String
status_badge pending = "Pending"
status_badge processing = "Processing"
status_badge completed = "Completed"
status_badge failed = "Failed"

pub record BatchRow : Type 0 where
  pub key : String
  pub file_name : String
  pub badge : String
  pub products : Option ℕ × ℕ
  pub uploaded : ℕ
  pub action : Option (String × Event)

unfoldable pub batch_row : UploadBatch → BatchRow
batch_row b = record {
  key = b.id;
  file_name = b.file_name;
  badge = status_badge b.status;
  products = product_count b.status b.processed_rows b.total_rows;
  uploaded = b.created_at;
  action = action_button b.status b.id;
}

pub data BatchTable : Type 0 where
  no_uploads : BatchTable
  loading_rows : ℕ → BatchTable
  batch_rows : List BatchRow → BatchTable

unfoldable pub batch_list_of : List UploadBatch → Bool → BatchTable
batch_list_of bs loading =
    if length bs == 0 && not loading
    then no_uploads
    else if loading
    then loading_rows 3
    else batch_rows (map batch_row bs)

-- `UploadView`: the preview of the file with its buttons, or the dropzone, which may be disabled; and
-- the error.
pub data UploadBox : Type 0 where
  preview : String → List (String × Event) → UploadBox
  dropzone : Bool → UploadBox

abbrev pub upload_box : Option String → Bool → UploadBox
upload_box (some f) is_uploading = preview f (
    ("Remove file", file_cleared)
    ∷ ("Choose Different File", file_cleared)
    ∷ ("Start Processing", upload_started)
    ∷ [])
upload_box none is_uploading = dropzone is_uploading

unfoldable pub upload_panel : Option String → Bool → Option String → UploadBox × Option String
upload_panel f is_uploading e = (upload_box f is_uploading, or_null e)

-- A row of the table of products: at most four of the rates are shown.
pub record ProductRow : Type 0 where
  pub key : String
  pub name : Text
  pub price : Number
  pub expiration_date : ℕ
  pub rates : List (Text × Number)

unfoldable pub product_row : ProductWithRates → ProductRow
product_row p = record {
  key = p.id;
  name = p.name;
  price = p.price;
  expiration_date = p.expiration_date;
  rates = take 4 p.exchange_rates;
}

-- `tableBody`
pub data TableBody : Type 0 where
  skeleton : ℕ → TableBody
  no_results : TableBody
  product_rows : List ProductRow → TableBody

unfoldable pub table_body : List ProductWithRates → Bool → TableBody
table_body ps loading =
    if loading
    then skeleton 15
    else if length ps == 0
    then no_results
    else product_rows (map product_row ps)
