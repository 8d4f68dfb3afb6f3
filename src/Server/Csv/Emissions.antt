-- ===== src/Server/Csv/Emissions.antt =====
-- jobs/csv.processor.ts: the events that a job sends before it fails, whichever calls throw.
use mathlib.Core.List.{append-nil, append_assoc}
use csv_product_uploader.Prelude.{
  ℕ, zero, suc, ◌+◌, min, false, ltb, List, [], ◌∷◌, ◌++◌, length, All, All-append, Option, none,
  some, String, ◌≡◌, refl, sym, ap, ◌∙◌, arith, Bool-cases, Option-cases, inl, inr,
}
use csv_product_uploader.Server.Entities.{
  ProgressEvent, is_terminal, processing, completed, or_null,
}
use csv_product_uploader.Server.Batches.{update_batch}
use csv_product_uploader.Server.Rates.{save_rates_for_batch}
use csv_product_uploader.Server.Rates.Frames.{save_rates_for_batch-part}
use csv_product_uploader.Server.World.{
  ◌>>◌, World, Result, ok, err, crashed, Thrown, after, unhandled, rescue, call, fault_of, return,
  FileContent, parsed, malformed,
}
use csv_product_uploader.Server.World.Frames.{IsApart, call-part, unhandled-part}
use csv_product_uploader.Server.Csv.Rows.{ProcessedRow, validate_rows}
use csv_product_uploader.Server.Csv.Processor.{
  batch_size, find_file, read_content, parse_csv, event, emit_progress, cleanup_file, save_products,
  report, save_chunk, save_from, import_rows, attempt,
}

emitted-IsApart : IsApart (λ w. w.emitted)
emitted-IsApart = record { settled = λ w. refl; apart = λ w a c t r. refl }

-- Between two worlds some events are sent, none of which has a last status.
pub record Tells (w v : World) : Type 0 where
  pub events : List ProgressEvent
  pub emitted : v.emitted ≡ w.emitted ++ events
  pub running : All (λ e. is_terminal e.status ≡ false) events

Tells-none : (w v : World) → v.emitted ≡ w.emitted → Tells w v
Tells-none w v h = record { events = []; emitted = h ∙ sym (append-nil w.emitted); running = tt }

Tells-trans : (w u v : World) → Tells w u → Tells u v → Tells w v
Tells-trans w u v a b = record {
  events = a.events ++ b.events;
  emitted =
      b.emitted
      ∙ (ap (λ (l : List ProgressEvent). l ++ b.events) a.emitted
          ∙ append_assoc w.emitted a.events b.events);
  running = All-append (λ e. is_terminal e.status ≡ false) a.events b.events a.running b.running;
}

after-Tells :
    {A B : Type 0} (w : World) (r : Result A × World) (k : A → World → Result B × World)
    → Tells w r.1
    → ((a : A) (v : World) → Tells v (k a v).1)
    → Tells w (after r k).1
after-Tells w (ok a, v) k t h = Tells-trans w v (k a v).1 t (h a v)
after-Tells w (err e, v) k t h = t
after-Tells w (crashed, v) k t h = t

call-Tells :
    (f : World → World) (w : World)
    → ((v : World) → (f v).emitted ≡ v.emitted)
    → Tells w (call f w).1
call-Tells f w h = Tells-none w (call f w).1 (call-part (λ v. v.emitted) emitted-IsApart f w h)

emit_progress-Tells :
    (id : String) (processed total : ℕ) (w : World)
    → Tells w (emit_progress id processed total processing none w).1
unfolding emit_progress
emit_progress-Tells id processed total w = record {
  events = event id processed total processing none w.now ∷ [];
  emitted = refl;
  running = (refl, tt);
}

save_chunk-Tells :
    (id : String) (rows : List ProcessedRow) (i : ℕ) (w : World)
    → Tells w (save_chunk id rows i w).1
unfolding save_chunk save_products report
save_chunk-Tells id rows i w = after-Tells w _ _ (call-Tells _ w (λ v. refl)) λ _ v.
    after-Tells v (update_batch id _ v) _ (call-Tells _ v (λ u. refl)) λ _ u.
      after-Tells u
        (emit_progress id (min (i + batch_size) (length rows)) (length rows) processing none u) _
        (emit_progress-Tells id (min (i + batch_size) (length rows)) (length rows) u)
        λ _ t. call-Tells _ t (λ s. refl)

save_from-Tells :
    (fuel : ℕ) (id : String) (rows : List ProcessedRow) (i : ℕ) (w : World)
    → Tells w (save_from fuel id rows i w).1
unfolding save_from
save_from-Tells zero id rows i w = Tells-none w w refl
save_from-Tells (suc fuel) id rows i w = elim (Bool-cases (ltb i (length rows))) [
  | inl more ↦ rw more (
      after-Tells w (save_chunk id rows i w) _ (save_chunk-Tells id rows i w)
        (λ _ v. save_from-Tells fuel id rows (i + batch_size) v))
  | inr over ↦ rw over (Tells-none w w refl)
]

-- What is sent if an error is thrown.
abbrev Warns : {A : Type 0} → World → Result A × World → Type 0
Warns w r = (e : Thrown) → r.0 ≡ err e → Tells w r.1

after-Warns :
    {A B : Type 0} (w : World) (r : Result A × World) (k : A → World → Result B × World)
    → Tells w r.1
    → ((a : A) (v : World) → Warns v (k a v))
    → Warns w (after r k)
after-Warns w (ok a, v) k t h = λ e q. Tells-trans w v (k a v).1 t (h a v e q)
after-Warns w (err x, v) k t h = λ e q. t
after-Warns w (crashed, v) k t h = λ e q. t

rescued_call : (f : World → World) (w : World) → (rescue (call f w) (λ e v. (ok tt, v))).0 ≡ ok tt
unfolding call
rescued_call f w = elim (Option-cases (fault_of w.script)) [
  | inl e ↦ rw e refl
  | inr (t, e) ↦ rw e refl
]

-- The clean-up throws nothing.
cleanup_file-ok : (path : String) (w : World) → (cleanup_file path w).0 ≡ ok tt
unfolding cleanup_file
cleanup_file-ok path w = elim (Option-cases (find_file path w.files)) [
  | inl e ↦ rw (e, cleanup_file) refl
  | inr (c, e) ↦ rw (e, cleanup_file) (rescued_call _ w)
]

never_err :
    (r : Result (Unit {0}) × World) (n : ℕ) (e : Thrown)
    → r.0 ≡ ok tt
    → (after r (λ _. return n)).0 ≡ err e
    → ⊥
never_err (ok a, v) n e h q = ground arith
never_err (err x, v) n e h q = ground arith
never_err (crashed, v) n e h q = ground arith

-- What follows the loop: the event of the end is sent only if nothing throws from then on.
closing-Warns :
    (id path : String) (n : ℕ) (w : World)
    → Warns w (
        (do
          update_batch id (λ b. record b { status = completed; processed_rows = n })
          emit_progress id n n completed none
          cleanup_file path
          return n)
          w)
unfolding emit_progress
closing-Warns id path n w =
    after-Warns w (update_batch id _ w) _ (call-Tells _ w (λ v. refl))
      λ _ v e q. absurd (never_err (cleanup_file path _) n e (cleanup_file-ok path _) q)

import_rows-Warns :
    (id path : String) (rows : List ProcessedRow) (w : World) → Warns w (import_rows id path rows w)
unfolding import_rows
import_rows-Warns id path rows w =
    after-Warns w (update_batch id _ w) _ (call-Tells _ w (λ v. refl)) λ _ v.
      after-Warns v (emit_progress id 0 (length rows) processing none v) _
        (emit_progress-Tells id 0 (length rows) v)
        λ _ u.
          after-Warns u (save_from (suc (length rows)) id rows 0 u) _
            (save_from-Tells (suc (length rows)) id rows 0 u)
            (λ _ t. closing-Warns id path (length rows) t)

read_content-emitted :
    (c : Option FileContent) (w : World) → (read_content c w).1.emitted ≡ w.emitted
read_content-emitted none w = refl
read_content-emitted (some (malformed e)) w = refl
read_content-emitted (some (parsed rows)) w = refl

parse_csv-Tells : (path : String) (w : World) → Tells w (parse_csv path w).1
unfolding parse_csv
parse_csv-Tells path w =
    after-Tells w (unhandled (call (λ v. v) w)) (λ _ v. read_content (find_file path v.files) v)
      (Tells-none w _ (
        unhandled-part (λ v. v.emitted) emitted-IsApart w (call (λ v. v) w)
          (call-part (λ v. v.emitted) emitted-IsApart (λ v. v) w (λ v. refl))))
      (λ _ v. Tells-none v _ (read_content-emitted (find_file path v.files) v))

pub attempt-Warns :
    (id path : String) (user_id : Option String) (w : World) → Warns w (attempt id path user_id w)
unfolding attempt
attempt-Warns id path user_id w =
    after-Warns w (update_batch id _ w) _ (call-Tells _ w (λ v. refl)) λ _ v.
      after-Warns v (save_rates_for_batch id v) _
        (Tells-none v _ (save_rates_for_batch-part (λ u. u.emitted) emitted-IsApart id v))
        λ _ u.
          after-Warns u (parse_csv path u) _ (parse_csv-Tells path u)
            λ rows t. import_rows-Warns id path (validate_rows rows id (or_null user_id)) t
