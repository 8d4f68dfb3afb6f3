-- ===== src/Server/Csv/Success.antt =====
-- jobs/csv.processor.ts: an import during which no call throws.
use mathlib.Core.List.{append-nil, append_assoc}
use csv_product_uploader.Prelude.{
  ℕ, zero, suc, ◌+◌, ◌-◌, ◌≤◌, ◌<◌, false, ltb, ltb→lt, List, [], ◌∷◌, ◌++◌, length, take, drop,
  min, none, some, String, ◌≡◌, refl, sym, ap, ◌∙◌, arith, All, All-append, take-drop, drop_all,
  Bool-cases, inl, inr,
}
use csv_product_uploader.Server.Entities.{UploadBatch, processing, ProgressEvent}
use csv_product_uploader.Server.Percentage.{percentage}
use csv_product_uploader.Server.Csv.Rows.{ProcessedRow}
use csv_product_uploader.Server.Batches.{find_batch, update_rows, find_batch-update_rows}
use csv_product_uploader.Server.World.{
  World, Result, ok, >>-call, call-quiet, settle, IsQuiet, later_replies-IsQuiet,
}
use csv_product_uploader.Server.Csv.Processor.{
  batch_size, event, reported, emit_progress, save_products, report, save_chunk, save_from,
}

-- The row of the batch is in the table, with its total.
abbrev pub Tracks : String → ℕ → World → Type 0
Tracks id n w = (b : UploadBatch) × (find_batch id w.batches ≡ some b) × (b.total_rows ≡ n)

-- An event of the loop: it is about the batch, which is being processed, and counts no row too many.
abbrev pub IsStep : String → ℕ → ProgressEvent → Type 0
IsStep id n e =
    (e.id ≡ id)
    × (e.status ≡ processing)
    × (e.total_rows ≡ n)
    × (e.processed_rows ≤ n)
    × (e.percentage ≡ percentage e.processed_rows n)

-- What a part of the loop does when no call throws: it stores `chunk` and sends `events`.
pub record Stores (id : String) (n : ℕ) (chunk : List ProcessedRow) (w : World)
    (r : Result (Unit {0}) × World) : Type 0 where
  pub events : List ProgressEvent
  pub returned : r.0 ≡ ok tt
  pub products : r.1.products ≡ w.products ++ chunk
  pub files : r.1.files ≡ w.files
  pub rates : r.1.rates ≡ w.rates
  pub emitted : r.1.emitted ≡ w.emitted ++ events
  pub steps : All (IsStep id n) events
  pub tracks : Tracks id n r.1
  pub quiet : IsQuiet r.1.script

pub update-Tracks :
    (id : String) (n now : ℕ) (f : UploadBatch → UploadBatch) (bs : List UploadBatch)
    (b : UploadBatch)
    → find_batch id bs ≡ some b
    → (f b).total_rows ≡ n
    → (c : UploadBatch) × (find_batch id (update_rows id now f bs) ≡ some c) × (c.total_rows ≡ n)
update-Tracks id n now f bs b e h =
    (record (f b) { id = b.id; updated_at = now }, find_batch-update_rows id now f bs b e, h)

-- The world after one round of the loop.
after_chunk : String → List ProcessedRow → ℕ → World → World
after_chunk id rows i w =
    let p = min (i + batch_size) (length rows) in
    let w1 : World = record (settle w) { products = w.products ++ take batch_size (drop i rows) } in
    let w2 : World = settle w1 in
    let w3 : World = record w2 {
      batches = update_rows id w2.now (λ b. record b { processed_rows = p }) w2.batches;
      emitted = w2.emitted ++ event id p (length rows) processing none w2.now ∷ [];
    } in
    record (settle w3) { job_progress = w3.job_progress ++ reported p (length rows) ∷ [] }

save_chunk-eq :
    (id : String) (rows : List ProcessedRow) (i : ℕ) (w : World)
    → IsQuiet w.script
    → save_chunk id rows i w ≡ (ok tt, after_chunk id rows i w)
unfolding save_chunk save_products emit_progress report after_chunk
save_chunk-eq id rows i w q =
    let q1 = later_replies-IsQuiet w.script q in
    let q2 = later_replies-IsQuiet (settle w).script q1 in
    >>-call _ _ w q ∙ (>>-call _ _ _ q1 ∙ call-quiet _ _ q2)

chunk-Stores :
    (id : String) (rows : List ProcessedRow) (i : ℕ) (w : World)
    → IsQuiet w.script
    → Tracks id (length rows) w
    → Stores id (length rows) (take batch_size (drop i rows)) w (ok tt, after_chunk id rows i w)
unfolding after_chunk
chunk-Stores id rows i w q (b, e, t) = record {
  events = _;
  returned = refl;
  products = refl;
  files = refl;
  rates = refl;
  emitted = refl;
  steps = ((refl, refl, refl, omega arith, refl), tt);
  tracks = update-Tracks id (length rows) _ _ w.batches b e t;
  quiet = later_replies-IsQuiet _ (later_replies-IsQuiet _ (later_replies-IsQuiet w.script q));
}

-- Two parts one after the other.
Stores-then :
    {id : String} {n : ℕ} (xs ys : List ProcessedRow) {w : World} (v : World)
    {r : Result (Unit {0}) × World}
    → Stores id n xs w (ok tt, v)
    → Stores id n ys v r
    → Stores id n (xs ++ ys) w r
Stores-then {id} {n} xs ys {w} v s t = record {
  events = s.events ++ t.events;
  returned = t.returned;
  products =
      t.products
      ∙ (ap (λ (l : List ProcessedRow). l ++ ys) s.products ∙ append_assoc w.products xs ys);
  files = t.files ∙ s.files;
  rates = t.rates ∙ s.rates;
  emitted =
      t.emitted
      ∙ (ap (λ (l : List ProgressEvent). l ++ t.events) s.emitted
          ∙ append_assoc w.emitted s.events t.events);
  steps = All-append (IsStep id n) s.events t.events s.steps t.steps;
  tracks = t.tracks;
  quiet = t.quiet;
}

Stores-none :
    {id : String} {n : ℕ} (w : World)
    → IsQuiet w.script
    → Tracks id n w
    → Stores id n [] w (ok tt, w)
Stores-none w q k = record {
  events = [];
  returned = refl;
  products = sym (append-nil w.products);
  files = refl;
  rates = refl;
  emitted = sym (append-nil w.emitted);
  steps = tt;
  tracks = k;
  quiet = q;
}

not_below : (i n : ℕ) → ltb i n ≡ false → n ≤ i
not_below i n h = ground arith

-- The loop ends within its fuel and stores the rows from the i-th on.
pub save_from-Stores :
    (fuel : ℕ) (id : String) (rows : List ProcessedRow) (i : ℕ) (w : World)
    → length rows - i < fuel
    → IsQuiet w.script
    → Tracks id (length rows) w
    → Stores id (length rows) (drop i rows) w (save_from fuel id rows i w)
unfolding save_from
save_from-Stores zero id rows i w h q t = absurd (omega arith)
save_from-Stores (suc fuel) id rows i w h q t = elim (Bool-cases (ltb i (length rows))) [
  | inl more ↦
      let v = after_chunk id rows i w in
      let s = chunk-Stores id rows i w q t in
      rw (more, save_chunk-eq id rows i w q, ← take-drop i batch_size rows)
        (Stores-then (take batch_size (drop i rows)) (drop (i + batch_size) rows) v s (
          save_from-Stores fuel id rows (i + batch_size) v
            (omega (arith, ltb→lt i (length rows) more)) s.quiet s.tracks))
  | inr none_left ↦
      rw (none_left, drop_all i rows (not_below i (length rows) none_left)) (Stores-none w q t)
]
