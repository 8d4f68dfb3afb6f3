-- ===== src/GoClient/Jobs.antt =====
-- types of the Go pipeline's client: the import jobs that its server reports.
use csv_product_uploader.Prelude.{ℕ, Bool, true, false, ◌||◌, Option, String}

-- `ImportJob['status']`
pub data JobStatus : Type 0 where
  pending processing completed failed : JobStatus

pub record ImportJob : Type 0 where
  pub id : String
  pub file_name : String
  pub status : JobStatus
  pub total_rows : ℕ
  pub valid_rows : ℕ
  pub invalid_rows : ℕ
  pub published_rows : ℕ
  pub processed_rows : ℕ
  pub retried_rows : ℕ
  pub dead_rows : ℕ
  pub last_error : Option String
  pub created_at : String
  pub updated_at : String

-- `status === 'completed'`
abbrev pub is_completed_job : JobStatus → Bool
is_completed_job completed = true
is_completed_job _ = false

-- `status === 'failed'`
abbrev pub is_failed_job : JobStatus → Bool
is_failed_job failed = true
is_failed_job _ = false

-- `status === 'completed' || status === 'failed'`
abbrev pub is_settled : JobStatus → Bool
is_settled s = is_completed_job s || is_failed_job s

-- `status === 'pending' || status === 'processing'`
abbrev pub is_in_flight : JobStatus → Bool
is_in_flight pending = true
is_in_flight processing = true
is_in_flight _ = false
