-- ===== src/Server/Csv/Chunks.antt =====
-- jobs/csv.processor.ts: what an import has stored, whichever calls throw.
use mathlib.Core.List.{append-nil, append_assoc}
use csv_product_uploader.Prelude.{
  ℕ, zero, suc, ◌+◌, ◌*◌, ◌≤◌, ltb, List, ◌++◌, length, min, take, drop, drop-drop, take-add, none,
  String, ◌≡◌, refl, sym, ap, ◌∙◌, arith, Bool-cases, Option-cases, inl, inr,
}
use csv_product_uploader.Server.Entities.{UploadBatch, processing}
use csv_product_uploader.Server.Batches.{update_batch}
use csv_product_uploader.Server.World.{
  M, ◌>>◌, World, Result, ok, err, crashed, after, call, settle, fault_of,
}
use csv_product_uploader.Server.World.Frames.{products-IsApart, call-part, after-part}
use csv_product_uploader.Server.Csv.Rows.{ProcessedRow}
use csv_product_uploader.Server.Csv.Processor.{
  batch_size, emit_progress, save_products, report, save_chunk, save_from,
}

-- The products have grown by some leading chunks of the rows from the i-th on; if a result is
-- returned, by all of them, and the result is good.
pub record Stored {A : Type 0} (rows : List ProcessedRow) (i : ℕ) (good : A → Type 0) (w : World)
    (r : Result A × World) : Type 0 where
  pub chunks : ℕ
  pub products : r.1.products ≡ w.products ++ take (chunks * batch_size) (drop i rows)
  pub whole : (a : A) → r.0 ≡ ok a → (length rows ≤ i + chunks * batch_size) × good a

module _ (rows : List ProcessedRow) where
  -- Nothing is stored, and no result is returned.
  pub Stored-none :
      {A : Type 0} (i : ℕ) (good : A → Type 0) (w : World) (r : Result A × World)
      → r.1.products ≡ w.products
      → ((a : A) → r.0 ≡ ok a → ⊥)
      → Stored rows i good w r
  Stored-none i good w r p n = record {
    chunks = 0;
    products = p ∙ sym (append-nil w.products);
    whole = λ a e. absurd (n a e);
  }

  -- A part before, which stores nothing.
  pub after-Stored :
      {A B : Type 0} (i : ℕ) (good : B → Type 0) (w : World) (r : Result A × World)
      (k : A → World → Result B × World)
      → r.1.products ≡ w.products
      → ((a : A) (v : World) → r ≡ (ok a, v) → Stored rows i good v (k a v))
      → Stored rows i good w (after r k)
  after-Stored i good w (ok a, v) k p h =
      let s = h a v refl in
      record {
        chunks = s.chunks;
        products =
            s.products
            ∙ ap (λ (l : List ProcessedRow). l ++ take (s.chunks * batch_size) (drop i rows)) p;
        whole = s.whole;
      }
  after-Stored i good w (err e, v) k p h = Stored-none i good w (err e, v) p (λ a q. cc)
  after-Stored i good w (crashed, v) k p h = Stored-none i good w (crashed, v) p (λ a q. cc)

  -- A part behind, which stores nothing.
  pub Stored-then :
      {A B : Type 0} (i : ℕ) (good : A → Type 0) (fine : B → Type 0) (w : World)
      (r : Result A × World) (k : A → World → Result B × World)
      → Stored rows i good w r
      → ((a : A) (v : World) → (k a v).1.products ≡ v.products)
      → ((a : A) (v : World) (b : B) → good a → (k a v).0 ≡ ok b → fine b)
      → Stored rows i fine w (after r k)
  Stored-then i good fine w (ok a, v) k s p f = record {
    chunks = s.chunks;
    products = p a v ∙ s.products;
    whole = λ b e. ((s.whole a refl).0, f a v b (s.whole a refl).1 e);
  }
  Stored-then i good fine w (err e, v) k s p f = record {
    chunks = s.chunks;
    products = s.products;
    whole = λ a q. absurd (ground arith);
  }
  Stored-then i good fine w (crashed, v) k s p f = record {
    chunks = s.chunks;
    products = s.products;
    whole = λ a q. absurd (ground arith);
  }

  -- A round of the loop stores its chunk, or nothing if it throws.
  pub record Chunk (i : ℕ) (w : World) (r : Result (Unit {0}) × World) : Type 0 where
    pub count : ℕ
    pub products : r.1.products ≡ w.products ++ take (count * batch_size) (drop i rows)
    pub once : (a : Unit {0}) → r.0 ≡ ok a → count ≡ 1

  -- What a round notes of its chunk.
  abbrev mark : ℕ → UploadBatch → UploadBatch
  mark i b = record b { processed_rows = min (i + batch_size) (length rows) }

  abbrev notes : String → ℕ → M (Unit {0})
  notes id i = do
    update_batch id (mark i)
    emit_progress id (min (i + batch_size) (length rows)) (length rows) processing none
    report (min (i + batch_size) (length rows)) (length rows)

  notes-products : (id : String) (i : ℕ) (w : World) → (notes id i w).1.products ≡ w.products
  unfolding report emit_progress
  notes-products id i w =
      after-part (λ v. v.products) products-IsApart w (update_batch id (mark i) w) _
        (call-part (λ v. v.products) products-IsApart _ w (λ v. refl))
        (λ _ v. call-part (λ u. u.products) products-IsApart _ _ (λ u. refl))

  save_chunk-Chunk : (id : String) (i : ℕ) (w : World) → Chunk i w (save_chunk id rows i w)
  unfolding save_chunk save_products report emit_progress call
  save_chunk-Chunk id i w = elim (Option-cases (fault_of w.script)) [
    | inl e ↦ rw e (record {
      count = 1;
      products =
          notes-products id i
            (record (settle w) { products = (settle w).products ++ take batch_size (drop i rows) });
      once = λ a q. refl;
    })
    | inr (t, e) ↦
        rw e (record { count = 0; products = sym (append-nil w.products); once = λ a q. cc })
  ]

  grown :
      (ps : List ProcessedRow) (i n : ℕ)
      → (ps ++ take batch_size (drop i rows)) ++ take (n * batch_size) (drop (i + batch_size) rows)
        ≡ ps ++ take (suc n * batch_size) (drop i rows)
  grown ps i n =
      let more : suc n * batch_size ≡ batch_size + n * batch_size = omega arith in
      rw
        (append_assoc ps (take batch_size (drop i rows))
          (take (n * batch_size) (drop (i + batch_size) rows)))
        (ap (λ (l : List ProcessedRow). ps ++ l)
          (sym (
            ap (λ (k : ℕ). take k (drop i rows)) more
            ∙ take-add batch_size (n * batch_size) (drop i rows)
            ∙ ap
                (λ (l : List ProcessedRow).
                  take batch_size (drop i rows) ++ take (n * batch_size) l)
                (drop-drop i batch_size rows))))

  -- A round and the rounds behind it.
  round-Stored :
      (i : ℕ) (w : World) (r : Result (Unit {0}) × World)
      (k : Unit {0} → World → Result (Unit {0}) × World)
      → Chunk i w r
      → ((a : Unit {0}) (v : World)
          → Stored rows (i + batch_size) (λ (_ : Unit {0}). Unit {0}) v (k a v))
      → Stored rows i (λ (_ : Unit {0}). Unit {0}) w (after r k)
  round-Stored i w (ok a, v) k c h =
      let s = h a v in
      let first : v.products ≡ w.products ++ take batch_size (drop i rows) =
        c.products
        ∙ ap (λ (n : ℕ). w.products ++ take (n * batch_size) (drop i rows)) (c.once a refl) in
      record {
        chunks = suc s.chunks;
        products =
            s.products
            ∙ ap
                (λ (l : List ProcessedRow).
                  l ++ take (s.chunks * batch_size) (drop (i + batch_size) rows))
                first
            ∙ grown w.products i s.chunks;
        whole = λ b e. let end = (s.whole b e).0 in (omega arith, tt);
      }
  round-Stored i w (err e, v) k c h = record {
    chunks = c.count;
    products = c.products;
    whole = λ a q. cc;
  }
  round-Stored i w (crashed, v) k c h = record {
    chunks = c.count;
    products = c.products;
    whole = λ a q. cc;
  }

  pub save_from-Stored :
      (fuel : ℕ) (id : String) (i : ℕ) (w : World)
      → Stored rows i (λ (_ : Unit {0}). Unit {0}) w (save_from fuel id rows i w)
  unfolding save_from
  save_from-Stored zero id i w = Stored-none i (λ _. Unit {0}) w _ refl (λ a q. cc)
  save_from-Stored (suc fuel) id i w = elim (Bool-cases (ltb i (length rows))) [
    | inl more ↦ rw more (
        round-Stored i w (save_chunk id rows i w) _ (save_chunk-Chunk id i w)
          (λ a v. save_from-Stored fuel id (i + batch_size) v))
    | inr over ↦ rw over (record {
      chunks = 0;
      products = sym (append-nil w.products);
      whole = λ a q. (ground arith, tt);
    })
  ]
