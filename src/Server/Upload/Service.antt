-- ===== src/Server/Upload/Service.antt =====
-- upload/upload.service.ts: the batches of a user, and the job that a new batch queues. The database
-- chooses the id of a new row, an argument here.
use csv_product_uploader.Prelude.{
  ℕ, Bool, false, leb, if◌then◌else◌, List, [], ◌∷◌, ◌++◌, Option, none, some, String, str_eq,
  select,
}
use csv_product_uploader.Server.Entities.{UploadBatch, pending, failed, or_null}
use csv_product_uploader.Server.Batches.{update_batch, find_batch}
use csv_product_uploader.Server.World.{M, ok, ◌>>◌, after, return, try, call}

unfoldable pub new_batch : String → String → Option String → ℕ → UploadBatch
new_batch id file_name user_id now = record {
  id = id;
  file_name = file_name;
  status = pending;
  total_rows = 0;
  processed_rows = 0;
  error_message = none;
  user_id = or_null user_id;
  created_at = now;
  updated_at = now;
}

-- `csvQueue.add('process-csv', …)`
unfoldable pub add_job : String → String → Option String → M (Unit {0})
add_job id path user_id = call λ w. record w {
  queue = w.queue ++ record { batch_id = id; file_path = path; user_id = or_null user_id } ∷ [];
}

unfoldable pub queue_failed : String → M (Unit {0})
queue_failed id =
    update_batch id
      (λ b. record b { status = failed; error_message = some "Failed to start processing" })

-- `createBatch`; the result is the batch as it was saved, before the queue is called.
unfoldable pub create_batch : String → String → String → Option String → M UploadBatch
create_batch id file_name path user_id w =
    after
      (call (λ v. record v { batches = v.batches ++ new_batch id file_name user_id v.now ∷ [] }) w)
      λ _ v.
        after (try (add_job id path user_id) (λ _. queue_failed id) v)
          λ _. return (new_batch id file_name user_id v.now)

-- `getBatch`
unfoldable pub get_batch : String → M (Option UploadBatch)
get_batch id = do call (λ w. w); λ w. (ok (find_batch id w.batches), w)

-- `updateBatch`
unfoldable pub update_and_get : String → (UploadBatch → UploadBatch) → M (Option UploadBatch)
update_and_get id updates = do update_batch id updates; get_batch id

abbrev pub belongs_to : String → Option String → Bool
belongs_to user none = false
belongs_to user (some owner) = str_eq owner user

-- Newest first.
unfoldable pub insert_newest : UploadBatch → List UploadBatch → List UploadBatch
insert_newest b [] = b ∷ []
insert_newest b (c ∷ bs) =
    if leb c.created_at b.created_at then b ∷ c ∷ bs else c ∷ insert_newest b bs

unfoldable pub newest_first : List UploadBatch → List UploadBatch
newest_first [] = []
newest_first (b ∷ bs) = insert_newest b (newest_first bs)

-- `getBatchesByUserId`: `find({ where: { userId }, order: { createdAt: 'DESC' } })`
unfoldable pub get_batches_by_user_id : String → M (List UploadBatch)
get_batches_by_user_id user = do
  call (λ w. w)
  λ w. (ok (newest_first (select (λ b. belongs_to user b.user_id) w.batches)), w)
