-- ===== src/Server/Upload/Controller.antt =====
-- upload/upload.controller.ts: `uploadFile` with its file filter, and `getBatches`. What the packages
-- give the handler is its argument: the file with its extension, and the user that the guard set.
use csv_product_uploader.Prelude.{
  ℕ, ◌+◌, Bool, ◌||◌, not, ltb, if◌then◌else◌, List, [], ◌∷◌, Option, none, some, String, any,
}
use csv_product_uploader.Js.Text.{Text, codes, text_eq}
use csv_product_uploader.Server.Entities.{UploadBatch, BatchStatus, or_null}
use csv_product_uploader.Server.World.{ok, M, return, after}
use csv_product_uploader.Server.Upload.Service.{create_batch, get_batches_by_user_id}

pub record UploadedFile : Type 0 where
  -- `file.originalname`, and its `extname(…)`
  pub original_name : String
  pub extension : Text
  pub mimetype : Text
  pub size : ℕ
  -- `join(process.cwd(), file.path)`
  pub path : String

abbrev pub max_file_size : ℕ
max_file_size = 52428800

-- `toLowerCase` on ASCII letters.
abbrev pub lower_code : ℕ → ℕ
lower_code c = if ltb c b'A' || ltb b'Z' c then c else c + 32

unfoldable pub to_lower_case : Text → Text
to_lower_case [] = []
to_lower_case (c ∷ s) = lower_code c ∷ to_lower_case s

-- `fileFilter`
unfoldable pub is_csv : UploadedFile → Bool
is_csv f =
    any (text_eq (to_lower_case f.extension)) (codes ".csv" ∷ [])
    || any (text_eq f.mimetype) (codes "text/csv" ∷ codes "application/vnd.ms-excel" ∷ [])

-- A handler's answer, or the status and message of an error.
pub data Answer (A : Type 0) : Type 0 where
  answer : A → Answer A
  refuse : ℕ → String → Answer A

pub record UploadReply : Type 0 where
  pub id : String
  pub file_name : String
  pub status : BatchStatus
  pub total_rows : ℕ
  pub processed_rows : ℕ
  pub created_at : ℕ

unfoldable pub reply_of : UploadBatch → UploadReply
reply_of b = record {
  id = b.id;
  file_name = b.file_name;
  status = b.status;
  total_rows = b.total_rows;
  processed_rows = b.processed_rows;
  created_at = b.created_at;
}

-- `uploadFile`, behind the interceptor's filter and its limit on the size.
unfoldable pub upload_file : String → Option UploadedFile → Option String → M (Answer UploadReply)
upload_file id none user_id w = (ok (refuse 400 "File is required"), w)
upload_file id (some f) user_id w =
    if not (is_csv f)
    then (ok (refuse 400 "Only CSV files are allowed"), w)
    else if ltb max_file_size f.size
    then (ok (refuse 413 "File too large"), w)
    else after (create_batch id f.original_name f.path user_id w)
        (λ b. return (answer (reply_of b)))

abbrev pub batches_of : Option String → M (Answer (List UploadBatch))
batches_of none w = (ok (refuse 401 "Unauthorized"), w)
batches_of (some user) w = after (get_batches_by_user_id user w) (λ bs. return (answer bs))

-- `getBatches`
unfoldable pub get_batches : Option String → M (Answer (List UploadBatch))
get_batches user_id = batches_of (or_null user_id)
