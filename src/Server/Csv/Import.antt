-- ===== src/Server/Csv/Import.antt =====
-- jobs/csv.processor.ts, `handleProcessCsv` as a whole, when no call throws.
use mathlib.Core.List.{append_assoc}
use csv_product_uploader.Prelude.{
  ℕ, suc, List, [], ◌∷◌, ◌++◌, length, Option, none, some, String, ◌≡◌, refl, ap, ◌∙◌, arith, All,
  Option-cases, inl, inr,
}
use csv_product_uploader.Server.Entities.{
  UploadBatch, processing, completed, ProgressEvent, or_null,
}
use csv_product_uploader.Server.Csv.Rows.{CsvRow, ProcessedRow, validate_rows}
use csv_product_uploader.Server.Batches.{
  update_batch, find_batch, update_rows, find_batch-update_rows,
}
use csv_product_uploader.Server.Rates.{save_rates_for_batch}
use csv_product_uploader.Server.Rates.Snapshot.{CacheIsSupported}
use csv_product_uploader.Server.Rates.Snapshot.Saved.{save_rates_for_batch-Saves, NoRates}
use csv_product_uploader.Server.World.{
  World, M, Result, ok, after, after-ok, rescue-ok, return, ◌>>◌, >>-call, call-quiet, settle,
  IsQuiet, later_replies-IsQuiet, FileContent, parsed,
}
use csv_product_uploader.Server.Csv.Processor.{
  find_file, remove_file, parse_csv, event, emit_progress, cleanup_file, save_from, import_rows,
  attempt, recover, handle_process_csv,
}
use csv_product_uploader.Server.Csv.Success.{Tracks, IsStep, save_from-Stores, update-Tracks}

pub find_file-remove_file :
    (path : String) (fs : List (String × FileContent)) → find_file path (remove_file path fs) ≡ none
unfolding find_file remove_file
find_file-remove_file path [] = refl
find_file-remove_file path ((p, c) ∷ fs) = ground (arith, find_file-remove_file path fs)

-- The world after the file is removed.
pub record Cleans (path : String) (w : World) (r : Result (Unit {0}) × World) : Type 0 where
  pub returned : r.0 ≡ ok tt
  pub gone : find_file path r.1.files ≡ none
  pub batches : r.1.batches ≡ w.batches
  pub products : r.1.products ≡ w.products
  pub emitted : r.1.emitted ≡ w.emitted

pub cleanup_file-Cleans :
    (path : String) (w : World) → IsQuiet w.script → Cleans path w (cleanup_file path w)
unfolding cleanup_file
cleanup_file-Cleans path w q = elim (Option-cases (find_file path w.files)) [
  | inl e ↦
      rw (e, cleanup_file)
        (record { returned = refl; gone = e; batches = refl; products = refl; emitted = refl })
  | inr (c, e) ↦
      rw (e, cleanup_file, call-quiet (λ v. record v { files = remove_file path v.files }) w q)
        (record {
          returned = refl;
          gone = find_file-remove_file path w.files;
          batches = refl;
          products = refl;
          emitted = refl;
        })
]

-- The row of a finished batch.
abbrev pub IsCompleted : String → ℕ → World → Type 0
IsCompleted id n w =
    (b : UploadBatch) × (find_batch id w.batches ≡ some b)
    × (b.status ≡ completed)
    × (b.total_rows ≡ n)
    × (b.processed_rows ≡ n)

-- A finished import of `rows`.
pub record Imports (id path : String) (rows : List ProcessedRow) (w : World) (r : Result ℕ × World)
    : Type 0 where
  pub returned : r.0 ≡ ok (length rows)
  pub products : r.1.products ≡ w.products ++ rows
  pub row : IsCompleted id (length rows) r.1
  pub gone : find_file path r.1.files ≡ none
  pub steps : List ProgressEvent
  pub ended : ℕ
  pub emitted :
      r.1.emitted
      ≡ w.emitted ++ (steps ++ event id (length rows) (length rows) completed none ended ∷ [])
  pub counted : All (IsStep id (length rows)) steps

-- The end of the `try` block.
abbrev finish : String → String → ℕ → M ℕ
finish id path n =
    update_batch id (λ b. record b { status = completed; processed_rows = n })
    >> (emit_progress id n n completed none >> (cleanup_file path >> return n))

finish-Imports :
    (id path : String) (rows : List ProcessedRow) (steps : List ProgressEvent) (w v : World)
    → IsQuiet v.script
    → Tracks id (length rows) v
    → v.products ≡ w.products ++ rows
    → v.emitted ≡ w.emitted ++ steps
    → All (IsStep id (length rows)) steps
    → Imports id path rows w (finish id path (length rows) v)
unfolding emit_progress
finish-Imports id path rows steps w v q (b, e, t) ps es al =
    let n = length rows in
    let v1 : World = record (settle v) {
      batches =
          update_rows id (settle v).now (λ b. record b { status = completed; processed_rows = n })
            v.batches;
    } in
    let v2 : World = record v1 {
      emitted = v1.emitted ++ event id n n completed none v1.now ∷ [];
    } in
    let c = cleanup_file-Cleans path v2 (later_replies-IsQuiet v.script q) in
    let r = cleanup_file path v2 in
    rw
      (
        >>-call
            (λ w. record w {
              batches =
                  update_rows id w.now (λ b. record b { status = completed; processed_rows = n })
                    w.batches;
            })
            (emit_progress id n n completed none >> (cleanup_file path >> return n)) v q,
        after-ok r (λ _. return n) c.returned,
      )
      (record {
        returned = refl;
        products = c.products ∙ ps;
        row = (
          _,
          ap (find_batch id) c.batches ∙ find_batch-update_rows id _ _ v.batches b e,
          refl,
          t,
          refl,
        );
        gone = c.gone;
        steps = steps;
        ended = v1.now;
        emitted =
            c.emitted
            ∙ (ap (λ (l : List ProgressEvent). l ++ event id n n completed none v1.now ∷ []) es
                ∙ append_assoc w.emitted steps _);
        counted = al;
      })

import_rows-Imports :
    (id path : String) (rows : List ProcessedRow) (w : World) (b : UploadBatch)
    → IsQuiet w.script
    → find_batch id w.batches ≡ some b
    → Imports id path rows w (import_rows id path rows w)
unfolding import_rows emit_progress
import_rows-Imports id path rows w b q e =
    let n = length rows in
    let q1 = later_replies-IsQuiet w.script q in
    let v1 : World = record (settle w) {
      batches = update_rows id (settle w).now (λ b. record b { total_rows = n }) w.batches;
    } in
    let v2 : World = record v1 {
      emitted = v1.emitted ++ event id 0 n processing none v1.now ∷ [];
    } in
    let s =
      save_from-Stores (suc n) id rows 0 v2 (omega arith) q1
        (update-Tracks id n _ (λ b. record b { total_rows = n }) w.batches b e refl) in
    let first = event id 0 n processing none v1.now in
    rw
      (
        >>-call
            (λ w. record w {
              batches = update_rows id w.now (λ b. record b { total_rows = n }) w.batches;
            })
            (emit_progress id 0 n processing none
              >> (save_from (suc n) id rows 0 >> finish id path n))
            w q,
        after-ok (save_from (suc n) id rows 0 v2) (λ _. finish id path n) s.returned,
      )
      (finish-Imports id path rows (first ∷ s.events) w (save_from (suc n) id rows 0 v2).1 s.quiet
        s.tracks s.products (s.emitted ∙ append_assoc w.emitted (first ∷ []) s.events)
        ((refl, refl, refl, omega arith, refl), s.steps))

-- What is needed of the world for an import of a file to succeed: no call throws, the batch is in its
-- table with no rates yet, and the file is there and can be parsed.
pub record IsReady (id path : String) (content : List CsvRow) (w : World) : Type 0 where
  pub quiet : IsQuiet w.script
  pub batch : UploadBatch
  pub found : find_batch id w.batches ≡ some batch
  pub cache : CacheIsSupported w.cached_rates
  pub fresh : NoRates id w.rates
  pub file : find_file path w.files ≡ some (parsed content)

-- An import is the same from a world with the same products and events.
pub Imports-from :
    {id path : String} (rows : List ProcessedRow) (w v : World) {r : Result ℕ × World}
    → v.products ≡ w.products
    → v.emitted ≡ w.emitted
    → Imports id path rows v r
    → Imports id path rows w r
Imports-from {id} rows w v p e i = record {
  returned = i.returned;
  products = i.products ∙ ap (λ (l : List ProcessedRow). l ++ rows) p;
  row = i.row;
  gone = i.gone;
  steps = i.steps;
  ended = i.ended;
  emitted =
      i.emitted
      ∙ ap
          (λ (l : List ProgressEvent).
            l ++ (i.steps ++ event id (length rows) (length rows) completed none i.ended ∷ []))
          e;
  counted = i.counted;
}

-- The file is read.
parse_csv-parsed :
    (path : String) (content : List CsvRow) (w : World)
    → IsQuiet w.script
    → find_file path w.files ≡ some (parsed content)
    → parse_csv path w ≡ (ok content, settle w)
unfolding parse_csv
parse_csv-parsed path content w q e = rw (call-quiet (λ v. v) w q, e)

attempt-Imports :
    (id path : String) (user_id : Option String) (content : List CsvRow) (w : World)
    → IsReady id path content w
    → Imports id path (validate_rows content id (or_null user_id)) w (attempt id path user_id w)
unfolding attempt
attempt-Imports id path user_id content w h =
    let rows = validate_rows content id (or_null user_id) in
    let mark = λ (b : UploadBatch). record b { status = processing } in
    let v1 : World = record (settle w) { batches = update_rows id (settle w).now mark w.batches } in
    let s =
      save_rates_for_batch-Saves id v1 (later_replies-IsQuiet w.script h.quiet) h.cache h.fresh in
    let v2 = (save_rates_for_batch id v1).1 in
    let found = find_batch-update_rows id (settle w).now mark w.batches h.batch h.found in
    let import_all =
      λ (rs : List CsvRow). import_rows id path (validate_rows rs id (or_null user_id)) in
    let parse = λ (v : World). after (parse_csv path v) import_all in
    let i =
      import_rows-Imports id path rows (settle v2) _ (later_replies-IsQuiet v2.script s.quiet)
        (ap (find_batch id) s.batches ∙ found) in
    let whole : attempt id path user_id w ≡ import_rows id path rows (settle v2) =
      >>-call _ _ w h.quiet
      ∙ (after-ok (save_rates_for_batch id v1) (λ _. parse) s.returned
          ∙ ap (λ r. after r import_all)
              (parse_csv-parsed path content v2 s.quiet (ap (find_file path) s.files ∙ h.file))) in
    rw whole (Imports-from rows w (settle v2) s.products s.emitted i)

-- An import during which no call throws: `handleProcessCsv` returns the number of valid rows;
-- exactly the valid rows are added to the products, in order; the batch is completed and both its
-- counters are that number; the file is removed; the events sent are about this batch and never
-- count more rows than there are, and the last one says that all rows are processed. Asked is that
-- the batch and the file are there, that the file can be parsed, and that the batch has no rates
-- yet.
pub handle_process_csv-Imports :
    (id path : String) (user_id : Option String) (content : List CsvRow) (w : World)
    → IsReady id path content w
    → Imports id path
        (validate_rows content id (or_null user_id))
        w
        (handle_process_csv id path user_id w)
unfolding handle_process_csv
handle_process_csv-Imports id path user_id content w h =
    let a = attempt-Imports id path user_id content w h in
    rw (rescue-ok (attempt id path user_id w) (recover id path) a.returned) a
