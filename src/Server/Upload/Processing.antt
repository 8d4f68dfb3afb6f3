-- ===== src/Server/Upload/Processing.antt =====
-- From upload/upload.service.ts to jobs/csv.processor.ts: an upload, and the job that it queued.
use csv_product_uploader.Prelude.{
  List, [], ◌∷◌, ◌++◌, Option, none, some, String, arith, ◌≡◌, refl, subst,
}
use csv_product_uploader.Server.Entities.{or_null}
use csv_product_uploader.Server.Rates.Snapshot.{CacheIsSupported}
use csv_product_uploader.Server.Rates.Snapshot.Saved.{NoRates}
use csv_product_uploader.Server.World.{
  World, CsvJob, parsed, IsQuiet, settle, later_replies-IsQuiet,
}
use csv_product_uploader.Server.Csv.Rows.{CsvRow, validate_rows}
use csv_product_uploader.Server.Csv.Processor.{find_file, handle_process_csv, process_job}
use csv_product_uploader.Server.Csv.Import.{
  IsReady, Imports, Imports-from, handle_process_csv-Imports,
}
use csv_product_uploader.Server.Upload.Service.{create_batch, new_batch}
use csv_product_uploader.Server.Upload.Queueing.{
  HasNoBatch, after_create, create_batch-quiet, find_batch-append,
}

or_null-or_null : (user_id : Option String) → or_null (or_null user_id) ≡ or_null user_id
or_null-or_null none = refl
or_null-or_null (some s) = ground arith

pub create_batch-IsReady :
    (id file_name path : String) (user_id : Option String) (content : List CsvRow) (w : World)
    → IsQuiet w.script
    → HasNoBatch id w.batches
    → NoRates id w.rates
    → CacheIsSupported w.cached_rates
    → find_file path w.files ≡ some (parsed content)
    → IsReady id path content (after_create id file_name path user_id w)
unfolding new_batch
create_batch-IsReady id file_name path user_id content w q new fresh cache file = record {
  quiet = later_replies-IsQuiet _ (later_replies-IsQuiet w.script q);
  batch = new_batch id file_name user_id (settle w).now;
  found = find_batch-append id (new_batch id file_name user_id (settle w).now) w.batches new refl;
  cache = cache;
  fresh = fresh;
  file = file;
}

pub create_batch-Imports :
    (id file_name path : String) (user_id : Option String) (content : List CsvRow) (w : World)
    → IsQuiet w.script
    → HasNoBatch id w.batches
    → NoRates id w.rates
    → CacheIsSupported w.cached_rates
    → find_file path w.files ≡ some (parsed content)
    → Imports id path
        (validate_rows content id (or_null user_id))
        w
        (handle_process_csv id path (or_null user_id) (after_create id file_name path user_id w))
create_batch-Imports id file_name path user_id content w q new fresh cache file =
    let v = after_create id file_name path user_id w in
    let i =
      handle_process_csv-Imports id path (or_null user_id) content v
        (create_batch-IsReady id file_name path user_id content w q new fresh cache file) in
    subst
      (λ (u : Option String).
        Imports id path (validate_rows content id u) w
          (handle_process_csv id path (or_null user_id) v))
      (or_null-or_null user_id)
      (Imports-from (validate_rows content id (or_null (or_null user_id))) w v refl refl i)

-- A file that is uploaded and then processed, during which no call throws: `createBatch` adds one
-- job to the queue, and this job, with the data that it has there, run by `handleProcessCsv` from
-- the world that `createBatch` leaves, imports the file under the id of the new batch and for its
-- user: what the import promises holds of it.
-- Asked is that the id is new to the batches and to the rates, and that the file is there and can
-- be parsed.
pub create_batch-handle_process_csv :
    (id file_name path : String) (user_id : Option String) (content : List CsvRow) (w : World)
    → IsQuiet w.script
    → HasNoBatch id w.batches
    → NoRates id w.rates
    → CacheIsSupported w.cached_rates
    → find_file path w.files ≡ some (parsed content)
    → let v = (create_batch id file_name path user_id w).1 in
      (j : CsvJob) × (v.queue ≡ w.queue ++ j ∷ [])
      × Imports id path (validate_rows content id (or_null user_id)) w (process_job j v)
create_batch-handle_process_csv id file_name path user_id content w q new fresh cache file =
    rw (create_batch-quiet id file_name path user_id w q) (
      record { batch_id = id; file_path = path; user_id = or_null user_id },
      refl,
      create_batch-Imports id file_name path user_id content w q new fresh cache file,
    )
