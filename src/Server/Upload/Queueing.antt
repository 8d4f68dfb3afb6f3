-- ===== src/Server/Upload/Queueing.antt =====
-- upload/upload.service.ts: what `createBatch` promises.

use csv_product_uploader.Prelude.{
  ℕ, List, [], ◌∷◌, ◌++◌, Option, none, some, String, str_eq, eq_refl, Bool-cases, inl, inr, subst,
  if◌then◌else◌, ◌+◌, ◌≡◌, refl, arith,
}
use csv_product_uploader.Server.Entities.{UploadBatch, pending, failed, or_null}
use csv_product_uploader.Server.Batches.{find_batch, find_batch-update_rows}
use csv_product_uploader.Server.World.{
  World, ok, settle, call, call-quiet, IsQuiet, later_replies-IsQuiet, Thrown, Reply, fault_of-none,
}
use csv_product_uploader.Server.Upload.Service.{new_batch, add_job, queue_failed, create_batch}

-- The world after a batch is created and its job is queued.
abbrev pub after_create : String → String → String → Option String → World → World
after_create id file_name path user_id w =
    let saved : World = record (settle w) {
      batches = w.batches ++ new_batch id file_name user_id (settle w).now ∷ [];
    } in
    record (settle saved) {
      queue = w.queue ++ record { batch_id = id; file_path = path; user_id = or_null user_id } ∷ [];
    }

pub create_batch-quiet :
    (id file_name path : String) (user_id : Option String) (w : World)
    → IsQuiet w.script
    → create_batch id file_name path user_id w ≡ (
      ok (new_batch id file_name user_id (settle w).now),
      after_create id file_name path user_id w,
    )
unfolding create_batch add_job
create_batch-quiet id file_name path user_id w q =
    let n = new_batch id file_name user_id (settle w).now in
    rw
      (
        call-quiet
            (λ v. record v { batches = v.batches ++ new_batch id file_name user_id v.now ∷ [] }) w
            q,
        call-quiet
            (λ v. record v {
              queue =
                  v.queue
                  ++ record { batch_id = id; file_path = path; user_id = or_null user_id } ∷ [];
            })
            (record (settle w) { batches = w.batches ++ n ∷ [] })
            (later_replies-IsQuiet w.script q),
      )
      refl

-- No row of the table has the id.
abbrev pub HasNoBatch : String → List UploadBatch → Type 0
HasNoBatch id bs = find_batch id bs ≡ none

pub find_batch-append :
    (id : String) (b : UploadBatch) (bs : List UploadBatch)
    → HasNoBatch id bs
    → b.id ≡ id
    → find_batch id (bs ++ b ∷ []) ≡ some b
unfolding find_batch
find_batch-append id b [] h e = rw (e, eq_refl id) refl
find_batch-append id b (c ∷ bs) h e = elim (Bool-cases (str_eq c.id id)) [
  | inl same ↦ ground arith
  | inr apart ↦ rw apart (
      find_batch-append id b bs
        (subst (λ x. (if x then some c else find_batch id bs) ≡ none) apart h) e)
]

-- A batch as it begins: pending, with nothing counted and no message.
pub record Begins (id file_name : String) (user_id : Option String) (now : ℕ) (b : UploadBatch)
    : Type 0 where
  pub named : b.id ≡ id
  pub of_file : b.file_name ≡ file_name
  pub waits : b.status ≡ pending
  pub no_total : b.total_rows ≡ 0
  pub none_processed : b.processed_rows ≡ 0
  pub no_message : b.error_message ≡ none
  pub owned : b.user_id ≡ or_null user_id
  pub created : b.created_at ≡ now
  pub updated : b.updated_at ≡ now

-- When neither the database nor the queue throws, `createBatch` returns a batch with the id that the
-- database chose, the name of the file and the user, an empty one being none, which is pending, has
-- both counters at 0, no message, and the time at which it was saved; its row is added behind the
-- others and is found under its id from then on; and exactly one job is added to the queue, with the
-- id of the batch, the path and the user. Asked is that the id is new.
pub create_batch-queued :
    (id file_name path : String) (user_id : Option String) (w : World)
    → IsQuiet w.script
    → HasNoBatch id w.batches
    → let r = create_batch id file_name path user_id w in
      (b : UploadBatch) × (r.0 ≡ ok b)
      × Begins id file_name user_id (settle w).now b
      × (r.1.batches ≡ w.batches ++ b ∷ [])
      × (find_batch id r.1.batches ≡ some b)
      × (r.1.queue
          ≡ w.queue ++ record { batch_id = id; file_path = path; user_id = or_null user_id } ∷ [])
unfolding new_batch
create_batch-queued id file_name path user_id w q h =
    let b = new_batch id file_name user_id (settle w).now in
    let begins : Begins id file_name user_id (settle w).now b = record {
      named = refl;
      of_file = refl;
      waits = refl;
      no_total = refl;
      none_processed = refl;
      no_message = refl;
      owned = refl;
      created = refl;
      updated = refl;
    } in
    rw (create_batch-quiet id file_name path user_id w q)
      (b, refl, begins, refl, find_batch-append id b w.batches h refl, refl)

-- When the row is saved but the queue throws, and the update that follows does not, the row of the
-- batch is failed with the message 'Failed to start processing' and no job is queued; the batch
-- that is returned still says pending. Asked is that the id that the database chooses is new.
pub create_batch-queue_failed :
    (id file_name path : String) (user_id : Option String) (w : World) (saved queued : Reply)
    (rest : List Reply) (e : Thrown)
    → w.script ≡ saved ∷ queued ∷ rest
    → saved.fault ≡ none
    → queued.fault ≡ some e
    → IsQuiet rest
    → HasNoBatch id w.batches
    → ((create_batch id file_name path user_id w).0
        ≡ ok (new_batch id file_name user_id (settle w).now))
      × ((create_batch id file_name path user_id w).1.queue ≡ w.queue)
      × ((b : UploadBatch) × (find_batch id (create_batch id file_name path user_id w).1.batches
            ≡ some b)
          × (b.status ≡ failed)
          × (b.error_message ≡ some "Failed to start processing"))
unfolding create_batch add_job queue_failed call new_batch
create_batch-queue_failed id file_name path user_id w saved queued rest e hs h1 h2 q h =
    let n = new_batch id file_name user_id (w.now + saved.elapsed) in
    let found = find_batch-append id n w.batches h refl in
    rw (hs, h1, h2, fault_of-none rest q)
      (refl, refl, (_, find_batch-update_rows id _ _ (w.batches ++ n ∷ []) n found, refl, refl))
