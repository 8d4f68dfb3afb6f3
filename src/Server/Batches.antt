-- ===== src/Server/Batches.antt =====
-- The table of batches: `findOne` and `update` by id (TypeORM's repository, as the services use it).
use csv_product_uploader.Prelude.{
  false, ℕ, List, [], ◌∷◌, Option, none, some, String, str_eq, eq_iff, if◌then◌else◌, ◌≡◌, refl,
  arith,
}
use csv_product_uploader.Server.Entities.{UploadBatch}
use csv_product_uploader.Server.World.{M, call}

-- `findOne({ where: { id } })`
unfoldable pub find_batch : String → List UploadBatch → Option UploadBatch
find_batch id [] = none
find_batch id (b ∷ bs) = if str_eq b.id id then some b else find_batch id bs

-- The rows with an id, changed; the others as they were. `updatedAt` is set to the time.
unfoldable pub update_rows :
    String → ℕ → (UploadBatch → UploadBatch) → List UploadBatch → List UploadBatch
update_rows id now f [] = []
update_rows id now f (b ∷ bs) =
    (if str_eq b.id id then record (f b) { id = b.id; updated_at = now } else b)
    ∷ update_rows id now f bs

-- `uploadBatchRepository.update(id, …)`
abbrev pub update_batch : String → (UploadBatch → UploadBatch) → M (Unit {0})
update_batch id f = call (λ w. record w { batches = update_rows id w.now f w.batches })

pub find_batch-update_rows :
    (id : String) (now : ℕ) (f : UploadBatch → UploadBatch) (bs : List UploadBatch)
    (b : UploadBatch)
    → find_batch id bs ≡ some b
    → find_batch id (update_rows id now f bs) ≡ some (record (f b) { id = b.id; updated_at = now })
unfolding find_batch update_rows
find_batch-update_rows id now f [] b h = cc
find_batch-update_rows id now f (c ∷ bs) b h =
    ground (arith, eq_iff c.id id, find_batch-update_rows id now f bs b)

pub find_batch-update_rows_other :
    (id key : String) (now : ℕ) (f : UploadBatch → UploadBatch) (bs : List UploadBatch)
    → str_eq id key ≡ false
    → find_batch key (update_rows id now f bs) ≡ find_batch key bs
unfolding find_batch update_rows
find_batch-update_rows_other id key now f [] h = refl
find_batch-update_rows_other id key now f (c ∷ bs) h = ground (
  arith,
  eq_iff c.id id,
  eq_iff c.id key,
  eq_iff id key,
  find_batch-update_rows_other id key now f bs h,
)
