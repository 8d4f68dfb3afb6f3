-- ===== src/Witnesses/Imports.antt =====
-- An import of a file of two rows, in a world with one batch.
use csv_product_uploader.Prelude.{List, [], ◌∷◌, none, some, ◌≡◌, ◌≢◌, refl, ◌↔◌, arith}
use csv_product_uploader.Prelude.Int.{pos}
use csv_product_uploader.Js.Text.{codes}
use csv_product_uploader.Server.Entities.{UploadBatch, failed}
use csv_product_uploader.Server.Batches.{find_batch}
use csv_product_uploader.Witnesses.Decimals.{six_places}
use csv_product_uploader.Server.World.{World, body, CsvJob, error, ok, err, call, parsed, settle}
use csv_product_uploader.Server.Rates.{fetch_rates, RateData, hundredths}
use csv_product_uploader.Server.Rates.Snapshot.{
  table, quoted, Fetches, fetch_rates-Fetches, fetch_rates-cached,
}
use csv_product_uploader.Server.Csv.Rows.{CsvRow, ProcessedRow, validate_rows}
use csv_product_uploader.Server.Csv.Validation.{Validated, validate_rows_iff}
use csv_product_uploader.Server.Csv.Processor.{attempt, handle_process_csv, process_job, find_file}
use csv_product_uploader.Server.Csv.Import.{IsReady, Imports, handle_process_csv-Imports}
use csv_product_uploader.Server.Csv.Failure.{
  Fails, handle_process_csv-Fails, handle_process_csv_no_file,
}
use csv_product_uploader.Server.Upload.Queueing.{
  Begins, create_batch-queued, create_batch-queue_failed,
}
use csv_product_uploader.Server.Upload.Service.{create_batch, new_batch}
use csv_product_uploader.Server.Upload.Processing.{create_batch-handle_process_csv}

abbrev good_row : CsvRow
good_row = record {
  name = some (codes "Milk");
  price = some (codes "$1,5");
  expiration = some (codes "12/31/2025");
}

abbrev bad_row : CsvRow
bad_row = record { name = some (codes " "); price = some (codes "2"); expiration = none }

abbrev content : List CsvRow
content = good_row ∷ bad_row ∷ []

abbrev batch : UploadBatch
batch = new_batch "b1" "milk.csv" (some "u1") 5

abbrev world : World
world = record {
  batches = batch ∷ [];
  products = [];
  rates = [];
  files = ("/up/1", parsed content) ∷ [];
  queue = [];
  cached_rates = none;
  cache_timestamp = 0;
  emitted = [];
  job_progress = [];
  script = [];
  api = [];
  now = 5;
  decimal = six_places;
}

abbrev broken : World
broken = record world {
  script = record { fault = some (error "connection lost"); elapsed = 3 } ∷ [];
}

ready : IsReady "b1" "/up/1" content world
unfolding find_batch find_file new_batch
ready = record { quiet = tt; batch = batch; found = refl; cache = tt; fresh = refl; file = refl }

handle_process_csv-Imports_example :
    Imports "b1" "/up/1"
      (validate_rows content "b1" (some "u1"))
      world
      (handle_process_csv "b1" "/up/1" (some "u1") world)
handle_process_csv-Imports_example =
    handle_process_csv-Imports "b1" "/up/1" (some "u1") content world ready

lost : attempt "b1" "/up/1" none broken ≡ (err (error "connection lost"), settle broken)
unfolding attempt call
lost = refl

batch_found : find_batch "b1" (settle broken).batches ≡ some batch
unfolding find_batch new_batch
batch_found = refl

handle_process_csv-Fails_example :
    Fails "b1" "/up/1"
      (error "connection lost")
      (settle broken)
      (handle_process_csv "b1" "/up/1" none broken)
handle_process_csv-Fails_example =
    handle_process_csv-Fails "b1" "/up/1" none broken (settle broken) (error "connection lost")
      batch lost tt batch_found

no_file : find_file "/up/2" world.files ≡ none
unfolding find_file
no_file = refl

handle_process_csv_no_file_example : (handle_process_csv "b1" "/up/2" none world).0 ≢ ok 1
handle_process_csv_no_file_example = handle_process_csv_no_file "b1" "/up/2" none world 1 no_file

is_new : find_batch "b2" world.batches ≡ none
unfolding find_batch new_batch
is_new = refl

file_there : find_file "/up/1" world.files ≡ some (parsed content)
unfolding find_file
file_there = refl

create_batch-handle_process_csv_example :
    (j : CsvJob) × ((create_batch "b2" "milk.csv" "/up/1" (some "u1") world).1.queue ≡ j ∷ [])
    × Imports "b2" "/up/1"
        (validate_rows content "b2" (some "u1"))
        world
        (process_job j (create_batch "b2" "milk.csv" "/up/1" (some "u1") world).1)
create_batch-handle_process_csv_example =
    create_batch-handle_process_csv "b2" "milk.csv" "/up/1" (some "u1") content world tt is_new refl
      tt file_there

create_batch-queued_example :
    (b : UploadBatch) × ((create_batch "b2" "milk.csv" "/up/1" (some "u1") world).0 ≡ ok b)
    × Begins "b2" "milk.csv" (some "u1") 5 b
    × ((create_batch "b2" "milk.csv" "/up/1" (some "u1") world).1.batches ≡ batch ∷ b ∷ [])
    × (find_batch "b2" (create_batch "b2" "milk.csv" "/up/1" (some "u1") world).1.batches ≡ some b)
    × ((create_batch "b2" "milk.csv" "/up/1" (some "u1") world).1.queue
        ≡ record { batch_id = "b2"; file_path = "/up/1"; user_id = some "u1" } ∷ [])
create_batch-queued_example =
    create_batch-queued "b2" "milk.csv" "/up/1" (some "u1") world tt is_new

abbrev no_queue : World
no_queue = record world {
  script =
      record { fault = none; elapsed = 1 }
      ∷ record { fault = some (error "no redis"); elapsed = 1 }
      ∷ [];
}

create_batch-queue_failed_example :
    ((create_batch "b2" "milk.csv" "/up/1" none no_queue).0 ≡ ok (new_batch "b2" "milk.csv" none 6))
    × ((create_batch "b2" "milk.csv" "/up/1" none no_queue).1.queue ≡ [])
    × ((b : UploadBatch) × (find_batch "b2"
            (create_batch "b2" "milk.csv" "/up/1" none no_queue).1.batches
          ≡ some b)
        × (b.status ≡ failed)
        × (b.error_message ≡ some "Failed to start processing"))
create_batch-queue_failed_example =
    create_batch-queue_failed "b2" "milk.csv" "/up/1" none no_queue
      (record { fault = none; elapsed = 1 })
      (record { fault = some (error "no redis"); elapsed = 1 }) [] (error "no redis") refl refl refl
      tt is_new

fetch_rates-Fetches_example : Fetches broken (fetch_rates broken)
fetch_rates-Fetches_example = fetch_rates-Fetches broken tt

-- The API quotes the yen; an hour later the rates are asked for again.
abbrev usd : RateData
usd = (codes "jpy", hundredths 15000) ∷ []

abbrev answered : World
answered = record world { api = body (some usd) ∷ [] }

abbrev later : World
later = record (fetch_rates answered).1 { now = 3600005; api = [] }

fetch_rates-cached_example :
    (rates : RateData) × ((fetch_rates answered).0 ≡ ok rates)
    × (rates
        ≡ table
            (quoted (some usd) (codes "usd") (hundredths 100))
            (quoted (some usd) (codes "eur") (hundredths 92))
            (quoted (some usd) (codes "gbp") (hundredths 79))
            (quoted (some usd) (codes "jpy") (hundredths 14950))
            (quoted (some usd) (codes "aud") (hundredths 153)))
    × (fetch_rates later ≡ (ok rates, later))
fetch_rates-cached_example =
    fetch_rates-cached answered later (some usd) refl refl refl refl refl (omega arith)

-- The good row is kept.
abbrev kept : ProcessedRow
kept = record {
  name = codes "Milk";
  price = hundredths 150;
  expiration_date = pos 20453;
  upload_batch_id = "b1";
  user_id = none;
}

validate_rows_iff_example :
    (validate_rows content "b1" none ≡ kept ∷ []) ↔ Validated "b1" none content (kept ∷ [])
validate_rows_iff_example = validate_rows_iff content "b1" none (kept ∷ [])
