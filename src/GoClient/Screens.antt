-- ===== src/GoClient/Screens.antt =====
-- components/ImportProgress.tsx, components/upload/ProcessingView.tsx and components/ImportList.tsx
-- of the Go pipeline's client: what they show of a job, without its markup. A number that is shown
-- is kept as the number.
pub mod Counts
pub mod Rows
use csv_product_uploader.Prelude.{
  ℕ, ltb, leb, max, Bool, true, false, ◌&&◌, not, if◌then◌else◌, List, [], ◌∷◌, map, length, ◌==◌,
  Option, none, some, String,
}
use csv_product_uploader.Js.Number.{Number, of_ℕ, round, mul, div}
use csv_product_uploader.Js.Number.Minimum.{math_min}
use csv_product_uploader.GoClient.Jobs.{
  ImportJob, JobStatus, pending, processing, completed, failed, is_completed_job, is_failed_job,
  is_in_flight,
}
use csv_product_uploader.GoClient.Dashboard.{
  Action, products_chosen, progress_chosen, report_chosen,
}

-- `job?.validRows ?? 0` and the like.
abbrev pub count_of : (ImportJob → ℕ) → Option ImportJob → ℕ
count_of f none = 0
count_of f (some j) = f j

-- `percent`
unfoldable pub percent : ℕ → ℕ → Number
percent done valid =
    if ltb 0 valid
    then math_min (of_ℕ 100) (round (mul (div (of_ℕ done) (of_ℕ valid)) (of_ℕ 100)))
    else of_ℕ 0

-- `phase`
pub data Phase : Type 0 where
  preparing streaming materializing complete : Phase

unfoldable pub phase : ℕ → ℕ → ℕ → Phase
phase valid published processed =
    if ltb 0 valid && ltb published valid
    then streaming
    else if leb valid published && ltb processed published
    then materializing
    else if ltb 0 published
    then complete
    else preparing

abbrev pub phase_text : Phase → String
phase_text preparing = "Preparing import"
phase_text streaming = "Streaming & publishing events"
phase_text materializing = "Catalog worker materializing records"
phase_text complete = "Complete"

-- What `ImportProgress` shows.
pub record ProgressPanel : Type 0 where
  pub label : String
  pub done : ℕ
  pub valid : ℕ
  pub bar : Number
  pub counters : List (String × ℕ)

unfoldable pub import_progress : Option ImportJob → ProgressPanel
import_progress j =
    let valid = count_of (λ j. j.valid_rows) j in
    let published = count_of (λ j. j.published_rows) j in
    let processed = count_of (λ j. j.processed_rows) j in
    record {
      label = phase_text (phase valid published processed);
      done = max processed published;
      valid = valid;
      bar = percent (max processed published) valid;
      counters =
          ("Total", count_of (λ j. j.total_rows) j)
          ∷ ("Valid", valid)
          ∷ ("Invalid", count_of (λ j. j.invalid_rows) j)
          ∷ ("Published", published)
          ∷ ("Processed", processed)
          ∷ [];
    }

-- What `ProcessingView` shows around the panel.
pub record ProcessingPanel : Type 0 where
  pub heading : String
  pub file_name : Option String
  pub progress : ProgressPanel
  -- The green and the red box; the line below the link back, and the button.
  pub confirmation : Bool
  pub failure : Option String
  pub continues : Bool
  pub back_button : Bool

abbrev pub status_is : (JobStatus → Bool) → Option ImportJob → Bool
status_is p none = false
status_is p (some j) = p j.status

abbrev pub file_of : Option ImportJob → Option String
file_of none = none
file_of (some j) = some j.file_name

abbrev pub cause_of : Option String → String
cause_of none = "Unknown cause."
cause_of (some e) = e

abbrev pub error_of : Option ImportJob → Option String
error_of none = none
error_of (some j) = j.last_error

unfoldable pub processing_panel : Option ImportJob → Bool → ProcessingPanel
processing_panel j is_complete =
    let has_failed = is_complete && status_is is_failed_job j in
    let has_completed = is_complete && status_is is_completed_job j in
    record {
      heading =
          if has_completed
          then "Import complete"
          else if has_failed
          then "Import failed"
          else "Processing file...";
      file_name = file_of j;
      progress = import_progress j;
      confirmation = has_completed;
      failure = if has_failed then some (cause_of (error_of j)) else none;
      continues = not is_complete;
      back_button = has_failed;
    }

-- The action buttons of a row of `ImportList`.
pub data RowButton : Type 0 where
  view_products view_progress view_report : RowButton

abbrev pub row_buttons : JobStatus → List RowButton
row_buttons completed = view_products ∷ view_report ∷ []
row_buttons processing = view_progress ∷ []
row_buttons pending = view_progress ∷ []
row_buttons failed = view_report ∷ []

-- The handler that the dashboard gives to a button.
abbrev pub pressed : RowButton → String → Action
pressed view_products id = products_chosen id
pressed view_progress id = progress_chosen id
pressed view_report id = report_chosen id

-- The text of the badge, whose first letter is made a capital.
abbrev pub badge : JobStatus → String
badge pending = "Pending"
badge processing = "Processing"
badge completed = "Completed"
badge failed = "Failed"

pub record ImportRow : Type 0 where
  pub key : String
  pub file : String
  pub status : String
  pub pulses : Bool
  pub hint : Option String
  pub valid : ℕ
  pub total : ℕ
  -- '(… invalid)', if there is one.
  pub invalid : Option ℕ
  -- '… / …', or '—' if nothing is published.
  pub processed : Option (ℕ × ℕ)
  pub uploaded : String
  pub buttons : List RowButton

abbrev pub pulse : JobStatus → Bool
pulse processing = true
pulse _ = false

unfoldable pub import_row : ImportJob → ImportRow
import_row j = record {
  key = j.id;
  file = j.file_name;
  status = badge j.status;
  pulses = pulse j.status;
  hint = j.last_error;
  valid = j.valid_rows;
  total = j.total_rows;
  invalid = if ltb 0 j.invalid_rows then some j.invalid_rows else none;
  processed = if ltb 0 j.published_rows then some (j.processed_rows, j.published_rows) else none;
  uploaded = j.created_at;
  buttons = row_buttons j.status;
}

pub data ImportTable : Type 0 where
  no_imports : ImportTable
  skeleton : ℕ → ImportTable
  rows : List ImportRow → ImportTable

unfoldable pub import_list : List ImportJob → Bool → ImportTable
import_list js loading =
    if length js == 0 && not loading
    then no_imports
    else if loading
    then skeleton 3
    else rows (map import_row js)
