-- ===== src/Server/Entities.antt =====
-- The stored records: upload/entities/upload-batch.entity.ts, products/entities/product.entity.ts,
-- exchange-rates/entities/exchange-rate.entity.ts. A column of times is a number of milliseconds.
use csv_product_uploader.Prelude.{
  ℕ, String, Option, Bool, true, false, if◌then◌else◌, str_eq, none, some,
}
use csv_product_uploader.Js.Number.{Number}
use csv_product_uploader.Js.Text.{Text}

pub data BatchStatus : Type 0 where
  pending processing completed failed : BatchStatus

-- The columns of a batch. The relations (user, products, exchangeRates) are read from the other
-- tables' keys.
pub record UploadBatch : Type 0 where
  pub id : String
  pub file_name : String
  pub status : BatchStatus
  pub total_rows : ℕ
  pub processed_rows : ℕ
  pub error_message : Option String
  pub user_id : Option String
  pub created_at : ℕ
  pub updated_at : ℕ

-- One exchange rate of a batch's snapshot.
pub record ExchangeRate : Type 0 where
  pub upload_batch_id : String
  pub currency_code : Text
  pub rate : Number
  pub captured_at : ℕ

-- `['completed', 'failed'].includes(status)`
abbrev pub is_terminal : BatchStatus → Bool
is_terminal completed = true
is_terminal failed = true
is_terminal _ = false

-- `value || null` on a text that may be missing: the empty text counts as missing.
abbrev pub or_null : Option String → Option String
or_null none = none
or_null (some s) = if str_eq s "" then none else some s

-- What a progress event carries (csv.processor.ts `emitProgress`).
pub record ProgressEvent : Type 0 where
  pub id : String
  pub status : BatchStatus
  pub total_rows : ℕ
  pub processed_rows : ℕ
  pub percentage : Number
  pub error_message : Option String
  pub updated_at : ℕ
