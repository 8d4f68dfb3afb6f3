-- ===== src/Server/Csv/Processor.antt =====
-- jobs/csv.processor.ts, `handleProcessCsv`: the job that imports one uploaded file.
use csv_product_uploader.Prelude.{
  ℕ, zero, suc, ◌+◌, ltb, if◌then◌else◌, List, [], ◌∷◌, ◌++◌, length, take, drop, min, Option, none,
  some, String, str_eq,
}
use csv_product_uploader.Js.Number.{Number, round, mul, div, of_ℕ}
use csv_product_uploader.Server.Entities.{
  BatchStatus, processing, completed, failed, ProgressEvent, or_null,
}
use csv_product_uploader.Server.Percentage.{percentage}
use csv_product_uploader.Server.Csv.Rows.{CsvRow, ProcessedRow, validate_rows}
use csv_product_uploader.Server.Batches.{update_batch}
use csv_product_uploader.Server.Rates.{save_rates_for_batch}
use csv_product_uploader.Server.World.{
  M, ok, err, crashed, Thrown, error, other, ◌>>=◌, ◌>>◌, after, unhandled, rescue, return, throw,
  try, modify, call, CsvJob, FileContent, parsed, malformed,
}

-- `const BATCH_SIZE = 500`
abbrev pub batch_size : ℕ
batch_size = 500

unfoldable pub find_file : String → List (String × FileContent) → Option FileContent
find_file path [] = none
find_file path ((p, c) ∷ fs) = if str_eq p path then some c else find_file path fs

unfoldable pub remove_file : String → List (String × FileContent) → List (String × FileContent)
remove_file path [] = []
remove_file path ((p, c) ∷ fs) =
    if str_eq p path then remove_file path fs else (p, c) ∷ remove_file path fs

-- The rows of a file. The error of a file that cannot be opened or read is an event of the read stream, on
-- which `parseCSV` puts no listener (it listens to the parser's): it ends the process.
abbrev pub read_content : Option FileContent → M (List CsvRow)
read_content none w = (crashed, w)
read_content (some (malformed e)) w = (err e, w)
read_content (some (parsed rows)) w = (ok rows, w)

unfoldable pub parse_csv : String → M (List CsvRow)
parse_csv path w =
    after (unhandled (call (λ v. v) w)) (λ _ v. read_content (find_file path v.files) v)

-- The payload of `emitProgress`.
abbrev pub event : String → ℕ → ℕ → BatchStatus → Option String → ℕ → ProgressEvent
event batch_id processed total status message now = record {
  id = batch_id;
  status = status;
  total_rows = total;
  processed_rows = processed;
  percentage = percentage processed total;
  error_message = message;
  updated_at = now;
}

unfoldable pub emit_progress : String → ℕ → ℕ → BatchStatus → Option String → M (Unit {0})
emit_progress batch_id processed total status message = modify λ w. record w {
  emitted = w.emitted ++ event batch_id processed total status message w.now ∷ [];
}

-- `fs.unlinkSync`, if the file is there; an error is only logged.
unfoldable pub cleanup_file : String → M (Unit {0})
cleanup_file path w = elim (find_file path w.files) [
  | none ↦ (ok tt, w)
  | some c ↦
      rescue (call (λ v. record v { files = remove_file path v.files }) w) (λ e v. (ok tt, v))
]

unfoldable pub save_products : List ProcessedRow → M (Unit {0})
save_products rows = call (λ w. record w { products = w.products ++ rows })

-- `Math.round((processed / total) * 100)`
abbrev pub reported : ℕ → ℕ → Number
reported processed total = round (mul (div (of_ℕ processed) (of_ℕ total)) (of_ℕ 100))

-- `job.progress(…)`
unfoldable pub report : ℕ → ℕ → M (Unit {0})
report processed total =
    call λ w. record w { job_progress = w.job_progress ++ reported processed total ∷ [] }

-- One round of the loop, from row `i`.
unfoldable pub save_chunk : String → List ProcessedRow → ℕ → M (Unit {0})
save_chunk batch_id rows i = do
  save_products (take batch_size (drop i rows))
  let processed = min (i + batch_size) (length rows)
  update_batch batch_id (λ b. record b { processed_rows = processed })
  emit_progress batch_id processed (length rows) processing none
  report processed (length rows)

-- `for (let i = 0; i < validRows.length; i += BATCH_SIZE)`; each round takes one unit of fuel, and the
-- process stops without it.
unfoldable pub save_from : ℕ → String → List ProcessedRow → ℕ → M (Unit {0})
save_from zero batch_id rows i w = (crashed, w)
save_from (suc fuel) batch_id rows i w =
    let round_of =
      after (save_chunk batch_id rows i w) (λ _. save_from fuel batch_id rows (i + batch_size)) in
    if ltb i (length rows) then round_of else (ok tt, w)

-- The part of the `try` block after the rows are validated.
unfoldable pub import_rows : String → String → List ProcessedRow → M ℕ
import_rows batch_id path rows = do
  update_batch batch_id (λ b. record b { total_rows = length rows })
  emit_progress batch_id 0 (length rows) processing none
  save_from (suc (length rows)) batch_id rows 0
  update_batch batch_id (λ b. record b { status = completed; processed_rows = length rows })
  emit_progress batch_id (length rows) (length rows) completed none
  cleanup_file path
  return (length rows)

-- The `try` block.
unfoldable pub attempt : String → String → Option String → M ℕ
attempt batch_id path user_id = do
  update_batch batch_id (λ b. record b { status = processing })
  save_rates_for_batch batch_id
  rows ← parse_csv path
  import_rows batch_id path (validate_rows rows batch_id (or_null user_id))

-- `error instanceof Error ? error.message : 'Unknown error'`
abbrev pub message_of : Thrown → String
message_of (error s) = s
message_of other = "Unknown error"

-- The `catch` block.
unfoldable pub recover : String → String → Thrown → M ℕ
recover batch_id path e = do
  update_batch batch_id (λ b. record b { status = failed; error_message = some (message_of e) })
  emit_progress batch_id 0 0 failed (some (message_of e))
  cleanup_file path
  throw e

-- `handleProcessCsv`; the number is `processedRows` of the returned object.
unfoldable pub handle_process_csv : String → String → Option String → M ℕ
handle_process_csv batch_id path user_id =
    try (attempt batch_id path user_id) (recover batch_id path)

-- A job that the queue hands over: `const { batchId, filePath, userId } = job.data`.
abbrev pub process_job : CsvJob → M ℕ
process_job j = handle_process_csv j.batch_id j.file_path j.user_id
