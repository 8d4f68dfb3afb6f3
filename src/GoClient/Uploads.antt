-- ===== src/GoClient/Uploads.antt =====
-- hooks/useFileUpload.ts and components/FileDropzone.tsx of the Go pipeline's client. A file is its name.
use csv_product_uploader.Prelude.{
  ℕ, ◌*◌, ◌<◌, arith, List, [], ◌∷◌, Bool, true, false, if◌then◌else◌, Option, none, some, String,
}

pub record CsvUpload : Type 0 where
  pub pending_file : Option String
  pub is_uploading : Bool
  pub error : Option String
  pub active_job_id : Option String

abbrev pub nothing_uploaded : CsvUpload
nothing_uploaded = record {
  pending_file = none;
  is_uploading = false;
  error = none;
  active_job_id = none;
}

unfoldable pub on_file_select : String → CsvUpload → CsvUpload
on_file_select f u = record u { error = none; pending_file = some f }

unfoldable pub on_clear_file : CsvUpload → CsvUpload
on_clear_file u = record u { pending_file = none }

abbrev pub begin_upload : Option String → CsvUpload → CsvUpload
begin_upload none u = u
begin_upload (some f) u =
    if u.is_uploading then u else record u { is_uploading = true; error = none }

-- `onStartUpload`, up to its request.
unfoldable pub on_start_upload : CsvUpload → CsvUpload
on_start_upload u = begin_upload u.pending_file u

-- `uploadCsv` resolves with the job of this id.
unfoldable pub upload_succeeds : String → CsvUpload → CsvUpload
upload_succeeds id u =
    if u.is_uploading
    then record u { active_job_id = some id; pending_file = none; is_uploading = false }
    else u

abbrev pub upload_message : Option String → String
upload_message none = "Upload failed"
upload_message (some m) = m

-- `uploadCsv` fails; the message is that of an `Error`, or missing.
unfoldable pub upload_fails : Option String → CsvUpload → CsvUpload
upload_fails m u =
    if u.is_uploading then record u { error = some (upload_message m); is_uploading = false } else u

-- `onDrop` of components/FileDropzone.tsx: the files that react-dropzone accepts.
unfoldable pub on_drop : List String → CsvUpload → CsvUpload
on_drop [] u = u
on_drop (f ∷ fs) u = on_file_select f (record u { error = none })

-- `onDropRejected`
unfoldable pub on_drop_rejected : CsvUpload → CsvUpload
on_drop_rejected u = record u { error = some "Only CSV files up to 50MB are allowed" }

-- `maxSize`, in bytes, which is not the size that the message names.
abbrev pub max_size : ℕ
max_size = 50000 * 1024 * 1024

max_size_above : 50 * 1024 * 1024 < max_size
max_size_above = omega arith
