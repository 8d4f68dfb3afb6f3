-- ===== src/Server/Csv/Failure.antt =====
-- jobs/csv.processor.ts: failed imports, their `catch` block and what a retry by the queue meets.

use csv_product_uploader.Prelude.{
  ℕ, [], ◌∷◌, ◌++◌, Option, none, some, String, ◌≡◌, ◌≢◌, refl, sym, ap, ◌∙◌, arith,
}
use csv_product_uploader.Server.Entities.{UploadBatch, failed, processing}
use csv_product_uploader.Server.Batches.{
  update_batch, find_batch, update_rows, find_batch-update_rows,
}
use csv_product_uploader.Server.Rates.{save_rates_for_batch}
use csv_product_uploader.Server.World.{
  World, Result, ok, err, crashed, Thrown, after, unhandled, after-ok, rescue, throw, call, >>-call,
  settle, IsQuiet, later_replies-IsQuiet,
}
use csv_product_uploader.Server.World.Frames.{files-IsApart, call-part, unhandled-part}
use csv_product_uploader.Server.Rates.Frames.{save_rates_for_batch-part}
use csv_product_uploader.Server.Csv.Processor.{
  find_file, read_content, parse_csv, event, emit_progress, cleanup_file, attempt, message_of,
  recover, handle_process_csv,
}
use csv_product_uploader.Server.Csv.Import.{cleanup_file-Cleans}

-- The row of a failed batch.
abbrev pub IsFailed : String → String → World → Type 0
IsFailed id message w =
    (b : UploadBatch) × (find_batch id w.batches ≡ some b)
    × (b.status ≡ failed)
    × (b.error_message ≡ some message)

-- A failure that is recorded.
pub record Fails (id path : String) (e : Thrown) (w : World) (r : Result ℕ × World) : Type 0 where
  pub returned : r.0 ≡ err e
  pub row : IsFailed id (message_of e) r.1
  pub gone : find_file path r.1.files ≡ none
  pub products : r.1.products ≡ w.products
  pub ended : ℕ
  pub emitted : r.1.emitted ≡ w.emitted ++ event id 0 0 failed (some (message_of e)) ended ∷ []

recover-Fails :
    (id path : String) (e : Thrown) (w : World) (b : UploadBatch)
    → IsQuiet w.script
    → find_batch id w.batches ≡ some b
    → Fails id path e w (recover id path e w)
unfolding recover emit_progress
recover-Fails id path e w b q h =
    let mark =
      λ (c : UploadBatch). record c { status = failed; error_message = some (message_of e) } in
    let v1 : World = record (settle w) { batches = update_rows id (settle w).now mark w.batches } in
    let v2 : World = record v1 {
      emitted = v1.emitted ++ event id 0 0 failed (some (message_of e)) v1.now ∷ [];
    } in
    let c = cleanup_file-Cleans path v2 (later_replies-IsQuiet w.script q) in
    let whole : recover id path e w ≡ (err e, (cleanup_file path v2).1) =
      >>-call _ _ w q ∙ after-ok (cleanup_file path v2) (λ _. throw e) c.returned in
    rw whole (record {
      returned = refl;
      row = (
        _,
        ap (find_batch id) c.batches ∙ find_batch-update_rows id _ mark w.batches b h,
        refl,
        refl,
      );
      gone = c.gone;
      products = c.products;
      ended = v1.now;
      emitted = c.emitted;
    })

-- When the `try` block throws `e`, and no call of the `catch` block throws: the job fails with `e`,
-- so that the queue sees the failure; the batch is failed with the message of `e`; the file is
-- removed; no product is taken back; and the one event that is sent says that the batch failed.
pub handle_process_csv-Fails :
    (id path : String) (user_id : Option String) (w v : World) (e : Thrown) (b : UploadBatch)
    → attempt id path user_id w ≡ (err e, v)
    → IsQuiet v.script
    → find_batch id v.batches ≡ some b
    → Fails id path e v (handle_process_csv id path user_id w)
unfolding handle_process_csv
handle_process_csv-Fails id path user_id w v e b t q h = rw t (recover-Fails id path e v b q h)

-- A computation that cannot return.
abbrev NeverOk : {A : Type 0} → Result A × World → Type 0
NeverOk {A} r = (a : A) → r.0 ≢ ok a

after-NeverOk :
    {A B : Type 0} (r : Result A × World) (k : A → World → Result B × World)
    → ((a : A) (v : World) → r ≡ (ok a, v) → NeverOk (k a v))
    → NeverOk (after r k)
after-NeverOk (ok a, v) k h = h a v refl
after-NeverOk (err e, v) k h = λ b p. cc
after-NeverOk (crashed, v) k h = λ b p. cc

throw-NeverOk : {A : Type 0} (e : Thrown) (w : World) → NeverOk {A = A} (err e, w)
throw-NeverOk e w a p = cc

recover-NeverOk : (id path : String) (e : Thrown) (w : World) → NeverOk (recover id path e w)
unfolding recover
recover-NeverOk id path e w =
    let mark =
      λ (c : UploadBatch). record c { status = failed; error_message = some (message_of e) } in
    after-NeverOk (update_batch id mark w) _ λ _ v _.
      after-NeverOk (emit_progress id 0 0 failed (some (message_of e)) v) _
        λ _ u _. after-NeverOk (cleanup_file path u) _ λ _ t _. throw-NeverOk e t

parse_csv-NeverOk :
    (path : String) (w : World) → find_file path w.files ≡ none → NeverOk (parse_csv path w)
unfolding parse_csv
parse_csv-NeverOk path w h = after-NeverOk (unhandled (call (λ v. v) w)) _ λ _ v e rows p.
    let same : v.files ≡ w.files =
      sym (ap (λ r. r.1.files) e)
      ∙ unhandled-part (λ w. w.files) files-IsApart w (call (λ v. v) w)
          (call-part (λ w. w.files) files-IsApart (λ v. v) w (λ _. refl)) in
    crash-NeverOk v (ap (find_file path) same ∙ h) rows p
  where
    crash-NeverOk :
        (v : World)
        → find_file path v.files ≡ none
        → NeverOk (read_content (find_file path v.files) v)
    crash-NeverOk v e rows p = ground (arith, e, p)

attempt-NeverOk :
    (id path : String) (user_id : Option String) (w : World)
    → find_file path w.files ≡ none
    → NeverOk (attempt id path user_id w)
unfolding attempt
attempt-NeverOk id path user_id w h =
    let mark = λ (b : UploadBatch). record b { status = processing } in
    let start = update_batch id mark w in
    after-NeverOk start _ λ _ v p.
      let same : v.files ≡ w.files =
        sym (ap (λ r. r.1.files) p) ∙ call-part (λ w. w.files) files-IsApart _ w (λ _. refl) in
      after-NeverOk (save_rates_for_batch id v) _ λ _ u q.
        let kept : u.files ≡ w.files =
          sym (ap (λ r. r.1.files) q)
          ∙ (save_rates_for_batch-part (λ w. w.files) files-IsApart id v ∙ same) in
        after-NeverOk (parse_csv path u) _ λ rows t s.
          absurd (parse_csv-NeverOk path u (ap (find_file path) kept ∙ h) rows (ap (λ r. r.0) s))

rescue-NeverOk :
    {A : Type 0} (r : Result A × World) (k : Thrown → World → Result A × World)
    → NeverOk r
    → ((e : Thrown) (v : World) → NeverOk (k e v))
    → NeverOk (rescue r k)
rescue-NeverOk (ok a, v) k h g = absurd (h a refl)
rescue-NeverOk (err e, v) k h g = g e v
rescue-NeverOk (crashed, v) k h g = h

-- A job whose file is gone never succeeds, whichever calls throw. `handleProcessCsv` removes the
-- file when it fails, so that the retries which `createBatch` asks of the queue (`attempts: 3`)
-- cannot succeed.
pub handle_process_csv_no_file :
    (id path : String) (user_id : Option String) (w : World) (n : ℕ)
    → find_file path w.files ≡ none
    → (handle_process_csv id path user_id w).0 ≢ ok n
unfolding handle_process_csv
handle_process_csv_no_file id path user_id w n h =
    rescue-NeverOk (attempt id path user_id w) (recover id path)
      (attempt-NeverOk id path user_id w h) (recover-NeverOk id path) n
