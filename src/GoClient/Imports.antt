-- ===== src/GoClient/Imports.antt =====
-- hooks/useImportsData.ts of the Go pipeline's client: the list of imports, which is polled while
-- one of them is in flight.
use csv_product_uploader.Prelude.{
  ℕ, ◌+◌, ◌-◌, ltb, Bool, true, false, if◌then◌else◌, List, [], any, Option, none, some, String,
}
use csv_product_uploader.GoClient.Jobs.{ImportJob, is_in_flight}

pub record ImportsData : Type 0 where
  pub imports : List ImportJob
  pub loading : Bool
  pub error : Option String
  -- How many requests are not answered.
  pub requests : ℕ

-- `refresh`, up to its request.
unfoldable pub refresh : ImportsData → ImportsData
refresh d = record d { error = none; requests = d.requests + 1 }

-- The first effect has run.
abbrev pub mounted_imports : ImportsData
mounted_imports = record { imports = []; loading = true; error = none; requests = 1 }

-- `anyActive`
unfoldable pub any_active : List ImportJob → Bool
any_active js = any (λ j. is_in_flight j.status) js

-- A tick of the interval, which is set while an import is in flight.
unfoldable pub tick_imports : ImportsData → ImportsData
tick_imports d = if any_active d.imports then refresh d else d

unfoldable pub imports_listed : List ImportJob → ImportsData → ImportsData
imports_listed js d =
    if ltb 0 d.requests
    then record d { imports = js; loading = false; requests = d.requests - 1 }
    else d

abbrev pub imports_message : Option String → String
imports_message none = "Failed to load imports"
imports_message (some m) = m

unfoldable pub imports_failed : Option String → ImportsData → ImportsData
imports_failed m d =
    if ltb 0 d.requests
    then record d { error = some (imports_message m); loading = false; requests = d.requests - 1 }
    else d
