-- ===== src/Server/Csv/Partial.antt =====
-- jobs/csv.processor.ts: the products that a job leaves behind, whichever calls throw.
use csv_product_uploader.Prelude.{
  ℕ, suc, ◌*◌, ◌≤◌, List, ◌++◌, length, take, Option, none, some, String, ◌≡◌, refl, sym, ap, ◌∙◌,
  subst, arith, Option-cases, inl, inr, ◌⊎◌,
}
use csv_product_uploader.Server.Entities.{processing, completed, or_null}
use csv_product_uploader.Server.Batches.{update_batch}
use csv_product_uploader.Server.Rates.{save_rates_for_batch}
use csv_product_uploader.Server.Rates.Frames.{save_rates_for_batch-part}
use csv_product_uploader.Server.World.{
  M, ◌>>◌, throw, fault_of, World, Result, ok, err, crashed, Thrown, after, unhandled, rescue, call,
  parsed, malformed, FileContent, return,
}
use csv_product_uploader.Server.World.Frames.{
  files-IsApart, products-IsApart, call-part, unhandled-part, after-part, rescue-part,
}
use csv_product_uploader.Server.Csv.Rows.{CsvRow, ProcessedRow, validate_rows}
use csv_product_uploader.Server.Csv.Processor.{
  batch_size, find_file, read_content, parse_csv, emit_progress, cleanup_file, import_rows, attempt,
  recover, handle_process_csv,
}
use csv_product_uploader.Server.Csv.Chunks.{Stored, after-Stored, Stored-then, save_from-Stored}
use csv_product_uploader.Server.Csv.Totality.{IsSettled, IsUnreadable, IsSettled-or-IsUnreadable}

abbrev Counted : List ProcessedRow → ℕ → Type 0
Counted rows n = n ≡ length rows

cleanup_file-products : (path : String) (w : World) → (cleanup_file path w).1.products ≡ w.products
unfolding cleanup_file
cleanup_file-products path w = elim (Option-cases (find_file path w.files)) [
  | inl e ↦ rw (e, cleanup_file) refl
  | inr (c, e) ↦
      rw (e, cleanup_file)
        (rescue-part (λ v. v.products) products-IsApart w _ _
          (call-part (λ v. v.products) products-IsApart _ w (λ v. refl)) (λ t v. refl))
]

-- What a chain returns is what its last part returns.
after-returns :
    {A B : Type 0} (P : B → Type 0) (r : Result A × World) (k : A → World → Result B × World)
    (b : B)
    → ((a : A) (v : World) → (k a v).0 ≡ ok b → P b)
    → (after r k).0 ≡ ok b
    → P b
after-returns P (ok a, v) k b h e = h a v e
after-returns P (err t, v) k b h e = absurd (ground arith)
after-returns P (crashed, v) k b h e = absurd (ground arith)

-- What follows the loop.
abbrev closing : String → String → List ProcessedRow → M ℕ
closing id path rows = do
  update_batch id (λ b. record b { status = completed; processed_rows = length rows })
  emit_progress id (length rows) (length rows) completed none
  cleanup_file path
  return (length rows)

closing-products :
    (id path : String) (rows : List ProcessedRow) (w : World)
    → (closing id path rows w).1.products ≡ w.products
unfolding emit_progress
closing-products id path rows w =
    after-part (λ v. v.products) products-IsApart w _ _
      (call-part (λ v. v.products) products-IsApart _ w (λ v. refl))
      λ _ v.
        after-part (λ u. u.products) products-IsApart v (cleanup_file path _)
          (λ _. return (length rows)) (cleanup_file-products path _) (λ _ u. refl)

closing-Counted :
    (id path : String) (rows : List ProcessedRow) (w : World) (b : ℕ)
    → (closing id path rows w).0 ≡ ok b
    → Counted rows b
unfolding emit_progress
closing-Counted id path rows w b = after-returns (Counted rows) (update_batch id _ w) _ b λ _ v.
    after-returns (Counted rows) (cleanup_file path _) (λ _. return (length rows)) b (λ _ u e. cc)

import_rows-Stored :
    (id path : String) (rows : List ProcessedRow) (w : World)
    → Stored rows 0 (Counted rows) w (import_rows id path rows w)
unfolding import_rows emit_progress
import_rows-Stored id path rows w =
    after-Stored rows 0 (Counted rows) w (update_batch id _ w) _
      (call-part (λ v. v.products) products-IsApart _ w (λ v. refl))
      λ _ v _.
        after-Stored rows 0 (Counted rows) v (emit_progress id 0 (length rows) processing none v) _
          refl
          λ _ u _.
            Stored-then rows 0 (λ _. Unit {0}) (Counted rows) u _ (λ _. closing id path rows)
              (save_from-Stored rows (suc (length rows)) id 0 u)
              (λ _ t. closing-products id path rows t)
              (λ _ t b _ e. closing-Counted id path rows t b e)

read_content-products :
    (c : Option FileContent) (w : World) → (read_content c w).1.products ≡ w.products
read_content-products none w = refl
read_content-products (some (malformed e)) w = refl
read_content-products (some (parsed rows)) w = refl

parse_csv-products : (path : String) (w : World) → (parse_csv path w).1.products ≡ w.products
unfolding parse_csv
parse_csv-products path w =
    after-part (λ v. v.products) products-IsApart w (unhandled (call (λ v. v) w))
      (λ _ v. read_content (find_file path v.files) v)
      (unhandled-part (λ v. v.products) products-IsApart w (call (λ v. v) w)
        (call-part (λ v. v.products) products-IsApart (λ v. v) w (λ v. refl)))
      (λ _ v. read_content-products (find_file path v.files) v)

module _ (path : String) (content : List CsvRow) where
  parse_csv-content :
      (w : World) (rows : List CsvRow)
      → find_file path w.files ≡ some (parsed content)
      → (parse_csv path w).0 ≡ ok rows
      → content ≡ rows
  unfolding parse_csv call
  parse_csv-content w rows h = elim (Option-cases (fault_of w.script)) [
    | inl e ↦ rw (e, h) (λ q. cc)
    | inr (t, e) ↦ rw e (λ q. cc)
  ]

  attempt-Stored :
      (id : String) (user_id : Option String) (w : World)
      → find_file path w.files ≡ some (parsed content)
      → let rows = validate_rows content id (or_null user_id) in
        Stored rows 0 (Counted rows) w (attempt id path user_id w)
  unfolding attempt
  attempt-Stored id user_id w h =
      let rows = validate_rows content id (or_null user_id) in
      after-Stored rows 0 (Counted rows) w (update_batch id _ w) _
        (call-part (λ v. v.products) products-IsApart _ w (λ v. refl))
        λ _ v p.
          let there : find_file path v.files ≡ some (parsed content) =
            ap (find_file path)
              (sym (ap (λ r. r.1.files) p) ∙ call-part (λ w. w.files) files-IsApart _ w (λ _. refl))
            ∙ h in
          after-Stored rows 0 (Counted rows) v (save_rates_for_batch id v) _
            (save_rates_for_batch-part (λ u. u.products) products-IsApart id v)
            λ _ u q.
              let still : find_file path u.files ≡ some (parsed content) =
                ap (find_file path) (
                  sym (ap (λ r. r.1.files) q)
                  ∙ save_rates_for_batch-part (λ w. w.files) files-IsApart id v)
                ∙ there in
              after-Stored rows 0 (Counted rows) u (parse_csv path u) _ (parse_csv-products path u)
                λ cs t z.
                  subst
                    (λ c.
                      Stored rows 0 (Counted rows) t
                        (import_rows id path (validate_rows c id (or_null user_id)) t))
                    (parse_csv-content u cs still (ap (λ r. r.0) z))
                    (import_rows-Stored id path rows t)

-- The error of the `catch` block.
recover-products :
    (id path : String) (e : Thrown) (w : World) → (recover id path e w).1.products ≡ w.products
unfolding recover emit_progress
recover-products id path e w =
    after-part (λ v. v.products) products-IsApart w _ _
      (call-part (λ v. v.products) products-IsApart _ w (λ v. refl))
      λ _ v.
        after-part (λ u. u.products) products-IsApart v (cleanup_file path _) (λ _. throw e)
          (cleanup_file-products path _) (λ _ u. refl)

recover-throws :
    (id path : String) (e : Thrown) (w : World) (n : ℕ) → (recover id path e w).0 ≡ ok n → ⊥
unfolding recover emit_progress
recover-throws id path e w n =
    after-returns (λ _. ⊥) (update_batch id _ w) _ n
      λ _ v. after-returns (λ _. ⊥) (cleanup_file path _) (λ _. throw e) n (λ _ u q. cc)

rescue-Stored :
    (rows : List ProcessedRow) (id path : String) (w : World) (r : Result ℕ × World)
    → Stored rows 0 (Counted rows) w r
    → Stored rows 0 (Counted rows) w (rescue r (recover id path))
rescue-Stored rows id path w (ok n, v) s = record {
  chunks = s.chunks;
  products = s.products;
  whole = s.whole;
}
rescue-Stored rows id path w (err e, v) s = record {
  chunks = s.chunks;
  products = recover-products id path e v ∙ s.products;
  whole = λ n q. absurd (recover-throws id path e v n q);
}
rescue-Stored rows id path w (crashed, v) s = record {
  chunks = s.chunks;
  products = s.products;
  whole = s.whole;
}

-- A result counts all the rows, and the chunks hold them all; an error is thrown; nothing else
-- happens.
abbrev pub Outcome : List ProcessedRow → ℕ → Result ℕ → Type 0
Outcome rows chunks (ok n) = (n ≡ length rows) × (length rows ≤ chunks * batch_size)
Outcome rows chunks (err e) = Unit
Outcome rows chunks crashed = ⊥

Stored-Outcome :
    (rows : List ProcessedRow) (w : World) (r : Result ℕ × World)
    (s : Stored rows 0 (Counted rows) w r)
    → IsSettled r.0
    → Outcome rows s.chunks r.0
Stored-Outcome rows w (ok n, v) s h = let (all, count) = s.whole n refl in (count, omega arith)
Stored-Outcome rows w (err e, v) s h = tt
Stored-Outcome rows w (crashed, v) s h = h

-- Whichever calls throw, a job whose file is parsed stores a whole number of chunks from the front
-- of the valid rows of the file, in order and behind the products that are there, and takes none of
-- them back. If the job returns, it returns the number of valid rows and these chunks hold them
-- all; if not, it throws, unless the status and the snapshot were saved and the file cannot be read,
-- which ends the process.
pub handle_process_csv-stores_chunks :
    (id path : String) (user_id : Option String) (content : List CsvRow) (w : World)
    → find_file path w.files ≡ some (parsed content)
    → let rows = validate_rows content id (or_null user_id) in
      let r = handle_process_csv id path user_id w in
      (chunks : ℕ) × (r.1.products ≡ w.products ++ take (chunks * batch_size) rows)
      × (Outcome rows chunks r.0 ⊎ IsUnreadable id w)
unfolding handle_process_csv
handle_process_csv-stores_chunks id path user_id content w h =
    let rows = validate_rows content id (or_null user_id) in
    let s =
      rescue-Stored rows id path w (attempt id path user_id w)
        (attempt-Stored path content id user_id w h) in
    (
      s.chunks,
      s.products,
      elim (IsSettled-or-IsUnreadable id path user_id (parsed content) w h) [
        | inl settled ↦ inl (Stored-Outcome rows w _ s settled)
        | inr lost ↦ inr lost
      ],
    )
