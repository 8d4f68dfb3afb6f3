-- ===== src/Server/Csv/Totality.antt =====
-- jobs/csv.processor.ts: a job whose file is there always ends by a result or an error that is thrown.
use csv_product_uploader.Prelude.{
  ℕ, zero, suc, ◌+◌, ◌-◌, ◌<◌, Bool, true, false, ltb, ltb→lt, List, length, Option, none, some,
  String, ◌≡◌, refl, sym, ap, ◌∙◌, arith, Bool-cases, Option-cases, inl, inr, ◌⊎◌, subst,
}
use csv_product_uploader.Server.Entities.{ExchangeRate, processing, or_null}
use csv_product_uploader.Server.Batches.{update_batch}
use csv_product_uploader.Server.Rates.{
  RateData, save_rates_for_batch, save_rates, stored_rates, insert_rates, fetch_rates, from_cache,
  fetch_api, fetched, use_answer, next_answer,
}
use csv_product_uploader.Server.Rates.Frames.{save_rates_for_batch-part}
use csv_product_uploader.Server.World.{
  World, Result, ok, err, crashed, Thrown, M, ◌>>◌, after, unhandled, rescue, call, fault_of,
  ApiReply, unreachable, not_ok, null_body, body, FileContent, parsed, malformed,
}
use csv_product_uploader.Server.World.Frames.{files-IsApart, call-part, unhandled-part}
use csv_product_uploader.Server.Csv.Rows.{ProcessedRow, validate_rows}
use csv_product_uploader.Server.Csv.Processor.{
  batch_size, find_file, read_content, parse_csv, emit_progress, cleanup_file, save_products,
  report, save_chunk, save_from, import_rows, attempt, recover, handle_process_csv,
}

-- The process goes on.
abbrev pub IsSettled : {A : Type 0} → Result A → Type 0
IsSettled (ok a) = Unit
IsSettled (err e) = Unit
IsSettled crashed = ⊥

after-IsSettled :
    {A B : Type 0} (r : Result A × World) (k : A → World → Result B × World)
    → IsSettled r.0
    → ((a : A) (v : World) → r ≡ (ok a, v) → IsSettled (k a v).0)
    → IsSettled (after r k).0
after-IsSettled (ok a, v) k h g = g a v refl
after-IsSettled (err e, v) k h g = tt
after-IsSettled (crashed, v) k h g = h

rescue-IsSettled :
    {A : Type 0} (r : Result A × World) (k : Thrown → World → Result A × World)
    → IsSettled r.0
    → ((e : Thrown) (v : World) → IsSettled (k e v).0)
    → IsSettled (rescue r k).0
rescue-IsSettled (ok a, v) k h g = tt
rescue-IsSettled (err e, v) k h g = g e v
rescue-IsSettled (crashed, v) k h g = h

call-IsSettled : (f : World → World) (w : World) → IsSettled (call f w).0
unfolding call
call-IsSettled f w = elim (Option-cases (fault_of w.script)) [
  | inl e ↦ rw e tt
  | inr (t, e) ↦ rw e tt
]

cleanup_file-IsSettled : (path : String) (w : World) → IsSettled (cleanup_file path w).0
unfolding cleanup_file
cleanup_file-IsSettled path w = elim (Option-cases (find_file path w.files)) [
  | inl e ↦ rw (e, cleanup_file) tt
  | inr (c, e) ↦ rw (e, cleanup_file) (rescue-IsSettled _ _ (call-IsSettled _ w) (λ t v. tt))
]

use_answer-IsSettled : (a : ApiReply) (w : World) → IsSettled (use_answer a w).0
unfolding use_answer
use_answer-IsSettled (body usd) w = tt
use_answer-IsSettled unreachable w = tt
use_answer-IsSettled not_ok w = tt
use_answer-IsSettled null_body w = tt

fetched-IsSettled : (f : Option Thrown) (a : ApiReply) (w : World) → IsSettled (fetched f a w).0
fetched-IsSettled none a w = use_answer-IsSettled a w
fetched-IsSettled (some e) a w = tt

fetch_api-IsSettled : (w : World) → IsSettled (fetch_api w).0
unfolding fetch_api
fetch_api-IsSettled w = fetched-IsSettled (fault_of w.script) (next_answer w.api) _

from_cache-IsSettled :
    (cached : Option RateData) (fresh : Bool) (w : World) → IsSettled (from_cache cached fresh w).0
from_cache-IsSettled (some rates) true w = tt
from_cache-IsSettled (some rates) false w = fetch_api-IsSettled w
from_cache-IsSettled none fresh w = fetch_api-IsSettled w

stored_rates-IsSettled :
    (o : Option (List ExchangeRate)) (w : World) → IsSettled (stored_rates o w).0
stored_rates-IsSettled none w = tt
stored_rates-IsSettled (some rows) w = tt

save_rates_for_batch-IsSettled : (id : String) (w : World) → IsSettled (save_rates_for_batch id w).0
unfolding save_rates_for_batch fetch_rates save_rates
save_rates_for_batch-IsSettled id w =
    after-IsSettled (fetch_rates w) _ (from_cache-IsSettled w.cached_rates _ w) λ rates v _.
      after-IsSettled (save_rates _ v) _
        (after-IsSettled (call (λ u. u) v) _ (call-IsSettled _ v)
          (λ _ u _. stored_rates-IsSettled (insert_rates _ u.rates) u))
        (λ _ u _. tt)

save_chunk-IsSettled :
    (id : String) (rows : List ProcessedRow) (i : ℕ) (w : World)
    → IsSettled (save_chunk id rows i w).0
unfolding save_chunk save_products report emit_progress
save_chunk-IsSettled id rows i w =
    after-IsSettled _ _ (call-IsSettled _ w)
      λ _ v _. after-IsSettled _ _ (call-IsSettled _ v) λ _ u _. call-IsSettled _ _

-- The loop ends within its fuel, whichever calls throw.
save_from-IsSettled :
    (fuel : ℕ) (id : String) (rows : List ProcessedRow) (i : ℕ) (w : World)
    → length rows - i < fuel
    → IsSettled (save_from fuel id rows i w).0
unfolding save_from
save_from-IsSettled zero id rows i w h = absurd (omega arith)
save_from-IsSettled (suc fuel) id rows i w h = elim (Bool-cases (ltb i (length rows))) [
  | inl more ↦ rw more (
      after-IsSettled (save_chunk id rows i w) _ (save_chunk-IsSettled id rows i w) λ _ v _.
        save_from-IsSettled fuel id rows (i + batch_size) v
          (omega (arith, ltb→lt i (length rows) more)))
  | inr none_left ↦ rw none_left tt
]

import_rows-IsSettled :
    (id path : String) (rows : List ProcessedRow) (w : World)
    → IsSettled (import_rows id path rows w).0
unfolding import_rows emit_progress
import_rows-IsSettled id path rows w = after-IsSettled _ _ (call-IsSettled _ w) λ _ v _.
    after-IsSettled (save_from (suc (length rows)) id rows 0 _) _
      (save_from-IsSettled (suc (length rows)) id rows 0 _ (omega arith))
      λ _ u _.
        after-IsSettled _ _ (call-IsSettled _ u) λ _ t _.
          after-IsSettled (cleanup_file path _) _ (cleanup_file-IsSettled path _) λ _ s _. tt

recover-IsSettled : (id path : String) (e : Thrown) (w : World) → IsSettled (recover id path e w).0
unfolding recover emit_progress
recover-IsSettled id path e w =
    after-IsSettled _ _ (call-IsSettled _ w)
      λ _ v _. after-IsSettled (cleanup_file path _) _ (cleanup_file-IsSettled path _) λ _ s _. tt

read_content-IsSettled : (c : FileContent) (w : World) → IsSettled (read_content (some c) w).0
read_content-IsSettled (parsed rows) w = tt
read_content-IsSettled (malformed e) w = tt

reading : (w : World) → fault_of w.script ≡ none → IsSettled (unhandled (call (λ v. v) w)).0
unfolding call
reading w h = rw h tt

parse_csv-IsSettled :
    (path : String) (c : FileContent) (w : World)
    → fault_of w.script ≡ none
    → find_file path w.files ≡ some c
    → IsSettled (parse_csv path w).0
unfolding parse_csv
parse_csv-IsSettled path c w r h =
    after-IsSettled (unhandled (call (λ v. v) w)) _ (reading w r) λ _ v e.
      let same : find_file path v.files ≡ some c =
        ap (find_file path) (
          sym (ap (λ r. r.1.files) e)
          ∙ unhandled-part (λ w. w.files) files-IsApart w (call (λ v. v) w)
              (call-part (λ w. w.files) files-IsApart (λ v. v) w (λ _. refl)))
        ∙ h in
      rw same (read_content-IsSettled c v)

-- What a job does before it reads its file.
abbrev pub before_reading : String → M (List ExchangeRate)
before_reading id = do
  update_batch id (λ b. record b { status = processing })
  save_rates_for_batch id

-- Whichever calls throw but the reading of the file, a job whose file is there ends by a result or by an
-- error that it throws: the loop over the chunks comes to its end, and no error is left unhandled.
-- Asked is that the file can be read in the world that the status and the snapshot leave, if they
-- succeed: an error of the read stream ends the process.
pub handle_process_csv-IsSettled :
    (id path : String) (user_id : Option String) (c : FileContent) (w : World)
    → find_file path w.files ≡ some c
    → ((rates : List ExchangeRate) (v : World)
        → before_reading id w ≡ (ok rates, v)
        → fault_of v.script ≡ none)
    → IsSettled (handle_process_csv id path user_id w).0
unfolding handle_process_csv attempt
handle_process_csv-IsSettled id path user_id c w h reads =
    rescue-IsSettled (attempt id path user_id w) (recover id path)
      (after-IsSettled (update_batch id _ w) _ (call-IsSettled _ w) λ _ v p.
        let there : find_file path v.files ≡ some c =
          ap (find_file path)
            (sym (ap (λ r. r.1.files) p) ∙ call-part (λ w. w.files) files-IsApart _ w (λ _. refl))
          ∙ h in
        after-IsSettled (save_rates_for_batch id v) _ (save_rates_for_batch-IsSettled id v)
          λ rs u q.
            let still : find_file path u.files ≡ some c =
              ap (find_file path) (
                sym (ap (λ r. r.1.files) q)
                ∙ save_rates_for_batch-part (λ w. w.files) files-IsApart id v)
              ∙ there in
            let read : fault_of u.script ≡ none =
              reads rs u (ap (λ r. after r (λ _. save_rates_for_batch id)) p ∙ q) in
            after-IsSettled (parse_csv path u) _ (parse_csv-IsSettled path c u read still)
              λ rows t _. import_rows-IsSettled id path (validate_rows rows id (or_null user_id)) t)
      (recover-IsSettled id path)

-- The status and the snapshot of the job are saved, and then the file cannot be read.
abbrev pub IsUnreadable : String → World → Type 0
IsUnreadable id w =
    (rates : List ExchangeRate) × (v : World) × (t : Thrown) × (before_reading id w ≡ (ok rates, v))
    × (fault_of v.script ≡ some t)

never_err : {A : Type 0} {a : A} {t : Thrown} → ◌≡◌ {A = Result A} (ok a) (err t) → ⊥
never_err e = cc

never_crashed : {A : Type 0} {a : A} → ◌≡◌ {A = Result A} (ok a) crashed → ⊥
never_crashed e = cc

readable :
    (id : String) (w : World) (b : Result (List ExchangeRate) × World)
    → before_reading id w ≡ b
    → ((rates : List ExchangeRate) (v : World)
        → before_reading id w ≡ (ok rates, v)
        → fault_of v.script ≡ none)
      ⊎ IsUnreadable id w
readable id w (ok rates, v) e = elim (Option-cases (fault_of v.script)) [
  | inl none_left ↦ inl λ rs u q. subst (λ r. fault_of r.1.script ≡ none) (sym e ∙ q) none_left
  | inr (t, f) ↦ inr (rates, v, t, e, f)
]
readable id w (err x, v) e = inl λ rs u q. absurd (never_err (ap (λ r. r.0) (sym q ∙ e)))
readable id w (crashed, v) e = inl λ rs u q. absurd (never_crashed (ap (λ r. r.0) (sym q ∙ e)))

pub IsSettled-or-IsUnreadable :
    (id path : String) (user_id : Option String) (c : FileContent) (w : World)
    → find_file path w.files ≡ some c
    → IsSettled (handle_process_csv id path user_id w).0 ⊎ IsUnreadable id w
IsSettled-or-IsUnreadable id path user_id c w h = elim (readable id w (before_reading id w) refl) [
  | inl reads ↦ inl (handle_process_csv-IsSettled id path user_id c w h reads)
  | inr lost ↦ inr lost
]
