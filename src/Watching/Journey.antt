-- ===== src/Watching/Journey.antt =====
-- From the upload view of pages/Dashboard.tsx through upload/upload.service.ts and
-- jobs/csv.processor.ts back to the products view: one file of one user.
use csv_product_uploader.Prelude.{
  ◌<◌, false, List, [], ◌∷◌, ◌++◌, length, Option, some, String, str_eq, ◌≡◌, refl, sym, ap, subst,
  All,
}
use csv_product_uploader.Server.Entities.{UploadBatch, ProgressEvent, is_terminal, or_null}
use csv_product_uploader.Server.Batches.{find_batch}
use csv_product_uploader.Server.World.{World, CsvJob, ok, parsed, IsQuiet, settle}
use csv_product_uploader.Server.Rates.Snapshot.{CacheIsSupported}
use csv_product_uploader.Server.Rates.Snapshot.Saved.{NoRates}
use csv_product_uploader.Server.Csv.Rows.{CsvRow, ProcessedRow, validate_rows}
use csv_product_uploader.Server.Csv.Processor.{find_file, process_job}
use csv_product_uploader.Server.Upload.Service.{create_batch, new_batch}
use csv_product_uploader.Server.Upload.Queueing.{
  HasNoBatch, after_create, create_batch-quiet, find_batch-append,
}
use csv_product_uploader.Server.Upload.Processing.{create_batch-IsReady, create_batch-Imports}
use csv_product_uploader.Server.Upload.Hub.{Hub, subscribe, initial_event, initial_status}
use csv_product_uploader.Client.Dashboard.{
  Dashboard, upload_resolved, same_id, set_processing, track, step, render, products_view,
}
use csv_product_uploader.Client.Dashboard.Navigation.{Reaches, stepped}
use csv_product_uploader.Watching.Delivery.{emit_all, ended_stream}
use csv_product_uploader.Watching.Arrival.{receive_all, watched_import-shows}

-- The dashboard opens an event source for the batch that the upload has returned.
upload_resolved-source :
    (id : String) (d : Dashboard)
    → str_eq id "" ≡ false
    → same_id d.processing_batch_id (some id) ≡ false
    → (step (upload_resolved id) d).tracking.event_source ≡ some id
unfolding step set_processing track
upload_resolved-source id d h n = rw (n, h) refl

waiting :
    (id file_name : String) (user_id : Option String) (w : World)
    → is_terminal (new_batch id file_name user_id (settle w).now).status ≡ false
unfolding new_batch
waiting id file_name user_id w = refl

there :
    (id file_name path : String) (user_id : Option String) (w : World)
    → HasNoBatch id w.batches
    → find_batch id (after_create id file_name path user_id w).batches
      ≡ some (new_batch id file_name user_id (settle w).now)
unfolding new_batch
there id file_name path user_id w new =
    find_batch-append id (new_batch id file_name user_id (settle w).now) w.batches new refl

-- What a user gets who uploads a file and waits.
pub record Delivered (id : String) (j : CsvJob) (rows : List ProcessedRow) (b : UploadBatch)
    (w v : World) (h : Hub) (d : Dashboard) : Type 0 where
  pub queued : v.queue ≡ w.queue ++ j ∷ []
  pub returned : (process_job j v).0 ≡ ok (length rows)
  pub products : (process_job j v).1.products ≡ w.products ++ rows
  pub events : List ProgressEvent
  pub emitted : (process_job j v).1.emitted ≡ v.emitted ++ events
  pub streamed :
      (emit_all id events
        (initial_status h.next_emitter id (find_batch id v.batches) (subscribe id h))).streams
      ≡ h.streams ++ ended_stream id h.next_emitter (initial_event b ∷ events) ∷ []
  pub shown : render (receive_all (initial_event b ∷ events) d) ≡ products_view id

-- A user uploads a file, in any state that the dashboard can reach, while no call throws. The
-- server returns the new batch `b` and adds the job `j` to the queue; the dashboard opens an event
-- source for the batch; the server sends the batch's state and, when `j` has run with the data that
-- it has in the queue, all of its events, and ends the stream; the job has stored exactly the valid rows behind the products of before; and the
-- dashboard, given what was sent, shows the products of the batch. Asked is that the batch's id is
-- not empty and is new to the batches, to the rates and to the dashboard, that the file is there
-- and can be parsed, that the cache is empty or holds rates of supported currencies, and that the
-- service never gave out the stream's number before.
pub uploaded_file-Delivered :
    (id file_name path : String) (user_id : Option String) (content : List CsvRow) (w : World)
    (h : Hub) (d : Dashboard)
    → IsQuiet w.script
    → HasNoBatch id w.batches
    → NoRates id w.rates
    → CacheIsSupported w.cached_rates
    → find_file path w.files ≡ some (parsed content)
    → All (λ s. s.emitter < h.next_emitter) h.streams
    → Reaches d
    → str_eq id "" ≡ false
    → same_id d.processing_batch_id (some id) ≡ false
    → (b : UploadBatch) × (j : CsvJob) × ((create_batch id file_name path user_id w).0 ≡ ok b)
      × Delivered id j
          (validate_rows content id (or_null user_id))
          b
          w
          (create_batch id file_name path user_id w).1
          h
          (step (upload_resolved id) d)
uploaded_file-Delivered id file_name path user_id content w h d q new fresh cache file older r named
      other =
    let b = new_batch id file_name user_id (settle w).now in
    let v = after_create id file_name path user_id w in
    let e = step (upload_resolved id) d in
    let quiet = create_batch-quiet id file_name path user_id w q in
    let j : CsvJob = record { batch_id = id; file_path = path; user_id = or_null user_id } in
    let done = create_batch-Imports id file_name path user_id content w q new fresh cache file in
    let (es, emitted, streamed, shown) =
      watched_import-shows id path (or_null user_id) content v b h e
        (create_batch-IsReady id file_name path user_id content w q new fresh cache file)
        (waiting id file_name user_id w) older (stepped (upload_resolved id) d named r)
        (upload_resolved-source id d named other) in
    (
      b,
      j,
      ap (λ x. x.0) quiet,
      subst (λ x. Delivered id j (validate_rows content id (or_null user_id)) b w x h e)
          (sym (ap (λ x. x.1) quiet))
          (record {
            queued = refl;
            returned = done.returned;
            products = done.products;
            events = es;
            emitted = emitted;
            streamed =
                subst
                  (λ o.
                    (emit_all id es (initial_status h.next_emitter id o (subscribe id h))).streams
                    ≡ h.streams ++ ended_stream id h.next_emitter (initial_event b ∷ es) ∷ [])
                  (sym (there id file_name path user_id w new)) streamed;
            shown = shown;
          }),
    )
