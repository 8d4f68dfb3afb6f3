-- ===== src/Witnesses/Running.antt =====
-- A job whose calls throw, a user who watches an import, and a user's session.
use csv_product_uploader.Prelude.{
  ◌*◌, ℕ, true, false, if◌then◌else◌, List, [], ◌∷◌, take, none, some, Option, String, ◌≡◌, refl,
  subst, ◌≢◌, Bool, ◌⊎◌,
}
use csv_product_uploader.Js.Text.{Text, codes, text_eq, to_upper_case}
use csv_product_uploader.Server.Entities.{
  BatchStatus, UploadBatch, ExchangeRate, ProgressEvent, is_terminal,
}
use csv_product_uploader.Server.Batches.{find_batch}
use csv_product_uploader.Server.Rates.{
  save_rates_for_batch, fetch_rates, fetch_api, use_answer, save_rates, kept_row, insert_rates,
  rate_row, same_key,
}
use csv_product_uploader.Witnesses.Decimals.{six_places}
use csv_product_uploader.Server.World.{
  World, CsvJob, fault_of, ok, err, error, parsed, settle, call,
}
use csv_product_uploader.Server.Csv.Rows.{CsvRow, validate_rows}
use csv_product_uploader.Server.Csv.Processor.{batch_size, attempt, handle_process_csv, find_file}
use csv_product_uploader.Server.Csv.Import.{IsReady}
use csv_product_uploader.Server.Csv.Totality.{
  IsSettled, before_reading, IsUnreadable, handle_process_csv-IsSettled,
}
use csv_product_uploader.Server.Csv.Partial.{Outcome, handle_process_csv-stores_chunks}
use csv_product_uploader.Server.Upload.Service.{new_batch, create_batch}
use csv_product_uploader.Server.Upload.Hub.{empty_hub, subscribe, initial_event, initial_status}
use csv_product_uploader.Server.Auth
use csv_product_uploader.Server.Auth.{
  User, admitted, unauthorized, can_activate, signup, login, find_user,
}
use csv_product_uploader.Server.Auth.Tokens.{IsToken}
use csv_product_uploader.Client.Dashboard
use csv_product_uploader.Client.Dashboard.Navigation
use csv_product_uploader.Client.Session
use csv_product_uploader.Client.Session.{
  Storage, signed_out, handle_signup, handle_login, handle_logout,
}
use csv_product_uploader.Client.Network.{attach_auth_token, event_source_request}
use csv_product_uploader.Watching.Delivery.{emit_all, ended_stream}
use csv_product_uploader.Watching.Arrival.{receive_all, watched_import-shows}
use csv_product_uploader.Watching.Access.{session-opens}
use csv_product_uploader.Watching.Failing.{failed_import-shows}
use csv_product_uploader.Watching.Journey.{Delivered, uploaded_file-Delivered}

abbrev content : List CsvRow
content =
    record {
      name = some (codes "Milk");
      price = some (codes "1.5");
      expiration = some (codes "12/31/2025");
    }
    ∷ record { name = none; price = some (codes "2"); expiration = none }
    ∷ []

abbrev batch : UploadBatch
batch = new_batch "b1" "milk.csv" (some "u1") 5

abbrev world : World
world = record {
  batches = batch ∷ [];
  products = [];
  rates = [];
  files = ("/up/1", parsed content) ∷ [];
  queue = [];
  cached_rates = none;
  cache_timestamp = 0;
  emitted = [];
  job_progress = [];
  script = [];
  api = [];
  now = 5;
  decimal = six_places;
}

-- The third call throws.
abbrev broken : World
broken = record world {
  script =
      record { fault = none; elapsed = 1 }
      ∷ record { fault = none; elapsed = 1 }
      ∷ record { fault = some (error "connection lost"); elapsed = 3 }
      ∷ [];
}

file_there : find_file "/up/1" broken.files ≡ some (parsed content)
unfolding find_file
file_there = refl

-- The sixth call, which saves the first chunk, throws; the fourth reads the file.
abbrev late : World
late = record broken {
  script =
      record { fault = none; elapsed = 1 }
      ∷ record { fault = none; elapsed = 1 }
      ∷ record { fault = none; elapsed = 1 }
      ∷ record { fault = none; elapsed = 1 }
      ∷ record { fault = none; elapsed = 1 }
      ∷ record { fault = some (error "connection lost"); elapsed = 3 }
      ∷ [];
}

late_file : find_file "/up/1" late.files ≡ some (parsed content)
unfolding find_file
late_file = refl

late_script : fault_of (before_reading "b1" late).1.script ≡ none
unfolding save_rates_for_batch fetch_rates fetch_api use_answer save_rates kept_row insert_rates
    call rate_row same_key to_upper_case text_eq
late_script = refl

late_reads :
    (rates : List ExchangeRate) (v : World)
    → before_reading "b1" late ≡ (ok rates, v)
    → fault_of v.script ≡ none
late_reads rates v e =
    let same : fault_of (before_reading "b1" late).1.script ≡ none = late_script in
    subst (λ r. fault_of r.1.script ≡ none) e same

handle_process_csv-IsSettled_example :
    IsSettled (handle_process_csv "b1" "/up/1" (some "u1") late).0
handle_process_csv-IsSettled_example =
    handle_process_csv-IsSettled "b1" "/up/1" (some "u1") (parsed content) late late_file late_reads

handle_process_csv-stores_chunks_example :
    (chunks : ℕ) × ((handle_process_csv "b1" "/up/1" (some "u1") broken).1.products
      ≡ take (chunks * batch_size) (validate_rows content "b1" (some "u1")))
    × (Outcome
          (validate_rows content "b1" (some "u1"))
          chunks
          (handle_process_csv "b1" "/up/1" (some "u1") broken).0
        ⊎ IsUnreadable "b1" broken)
handle_process_csv-stores_chunks_example =
    handle_process_csv-stores_chunks "b1" "/up/1" (some "u1") content broken file_there

ready : IsReady "b1" "/up/1" content world
unfolding find_batch find_file new_batch
ready = record { quiet = tt; batch = batch; found = refl; cache = tt; fresh = refl; file = refl }

abbrev tracked : Dashboard.Dashboard
tracked = Dashboard.step (Dashboard.progress_viewed "b1") Dashboard.initial

tracked-Reaches : Navigation.Reaches tracked
tracked-Reaches =
    Navigation.stepped (Dashboard.progress_viewed "b1") Dashboard.initial refl Navigation.started

tracked_source : tracked.tracking.event_source ≡ some "b1"
unfolding Dashboard.step Dashboard.set_processing Dashboard.track
tracked_source = refl

waiting : is_terminal batch.status ≡ false
unfolding new_batch
waiting = refl

watched_import-shows_example :
    (es : List ProgressEvent) × ((handle_process_csv "b1" "/up/1" (some "u1") world).1.emitted ≡ es)
    × ((emit_all "b1" es (initial_status 0 "b1" (some batch) (subscribe "b1" empty_hub))).streams
        ≡ ended_stream "b1" 0 (initial_event batch ∷ es) ∷ [])
    × (Dashboard.render (receive_all (initial_event batch ∷ es) tracked)
        ≡ Dashboard.products_view "b1")
watched_import-shows_example =
    watched_import-shows "b1" "/up/1" (some "u1") content world batch empty_hub tracked ready
      waiting tt tracked-Reaches tracked_source

abbrev sign : String → String
sign id = "a.1"

abbrev verify : Text → Option String
verify t = if text_eq t (codes "a.1") then some "u1" else none

is_verified : verify (codes (sign "u1")) ≡ some "u1"
unfolding text_eq
is_verified = refl

sign-IsToken : IsToken (codes (sign "u1"))
sign-IsToken = (refl, (refl, (refl, (refl, tt))))

nobody : find_user "u1" [] ≡ none
unfolding find_user
nobody = refl

abbrev storage : Storage
storage = record { token = none; old_token = none; old_user_id = none }

abbrev guard : Auth.Request → Auth.Decision
guard = can_activate (λ id. codes (sign id)) verify false

abbrev guard_events : Auth.Request → Auth.Decision
guard_events = can_activate (λ id. codes (sign id)) verify true

abbrev reply : Session.Reply
reply = Session.session "a.1" "u1"

session-opens_example :
    ((signup (λ id. codes (sign id)) verify "u1" 5 []).0 ≡ Auth.session (codes "a.1") "u1")
    × (login (λ id. codes (sign id)) verify "u1" (signup (λ id. codes (sign id)) verify "u1" 5 []).1
        ≡ Auth.session (codes "a.1") "u1")
    × (guard (attach_auth_token (handle_signup false reply (signed_out, storage)).1)
        ≡ admitted (some "u1"))
    × (guard (attach_auth_token (handle_login false reply (signed_out, storage)).1)
        ≡ admitted (some "u1"))
    × (guard_events (event_source_request (handle_login false reply (signed_out, storage)).1)
        ≡ admitted none)
    × (guard (attach_auth_token (handle_logout (handle_login false reply (signed_out, storage))).1)
        ≡ unauthorized)
    × (guard_events
          (event_source_request (handle_logout (handle_login false reply (signed_out, storage))).1)
        ≡ admitted none)
    × (guard (attach_auth_token (handle_login true reply (signed_out, storage)).1)
        ≡ guard (attach_auth_token storage))
    × ((handle_login true reply (signed_out, storage)).0.is_authenticated ≡ true)
session-opens_example =
    session-opens sign verify "u1" 5 [] signed_out storage is_verified sign-IsToken nobody

abbrev empty_world : World
empty_world = record world { batches = [] }

-- The upload view, with a file, while its upload runs.
abbrev uploading : Dashboard.Dashboard
uploading = Dashboard.step Dashboard.upload_started (
    Dashboard.step (Dashboard.file_selected "milk.csv")
      (Dashboard.step Dashboard.upload_opened Dashboard.initial))

uploading-Reaches : Navigation.Reaches uploading
uploading-Reaches = Navigation.stepped Dashboard.upload_started _ tt (
    Navigation.stepped (Dashboard.file_selected "milk.csv") _ tt
      (Navigation.stepped Dashboard.upload_opened Dashboard.initial tt Navigation.started))

not_tracked : Dashboard.same_id uploading.processing_batch_id (some "b1") ≡ false
unfolding Dashboard.step
not_tracked = refl

no_batch : find_batch "b1" empty_world.batches ≡ none
unfolding find_batch
no_batch = refl

file_ready : find_file "/up/1" empty_world.files ≡ some (parsed content)
unfolding find_file
file_ready = refl

uploaded_file-Delivered_example :
    (b : UploadBatch) × (j : CsvJob) × ((create_batch "b1" "milk.csv" "/up/1"
        (some "u1")
        empty_world).0
      ≡ ok b)
    × Delivered "b1" j
        (validate_rows content "b1" (some "u1"))
        b
        empty_world
        (create_batch "b1" "milk.csv" "/up/1" (some "u1") empty_world).1
        empty_hub
        (Dashboard.step (Dashboard.upload_resolved "b1") uploading)
uploaded_file-Delivered_example =
    uploaded_file-Delivered "b1" "milk.csv" "/up/1" (some "u1") content empty_world empty_hub
      uploading tt no_batch refl tt file_ready tt uploading-Reaches refl not_tracked

-- The first call of the job throws.
abbrev refused : World
refused = record world {
  script = record { fault = some (error "connection lost"); elapsed = 3 } ∷ [];
}

connection_lost :
    attempt "b1" "/up/1" (some "u1") refused ≡ (err (error "connection lost"), settle refused)
unfolding attempt call
connection_lost = refl

batch_there : find_batch "b1" (settle refused).batches ≡ some batch
unfolding find_batch new_batch
batch_there = refl

failed_import-shows_example :
    (es : List ProgressEvent) × ((handle_process_csv "b1" "/up/1" (some "u1") refused).1.emitted
      ≡ es)
    × ((emit_all "b1" es (initial_status 0 "b1" (some batch) (subscribe "b1" empty_hub))).streams
        ≡ ended_stream "b1" 0 (initial_event batch ∷ es) ∷ [])
    × (Dashboard.render (receive_all (initial_event batch ∷ es) tracked)
        ≡ Dashboard.view_of tracked.view_mode tracked)
    × ((p : Option BatchStatus) (has_failed : Bool)
        → Dashboard.render (receive_all (initial_event batch ∷ es) tracked)
          ≢ Dashboard.processing_view p has_failed)
failed_import-shows_example =
    failed_import-shows "b1" "/up/1" (some "u1") refused (settle refused) (error "connection lost")
      batch batch empty_hub tracked connection_lost tt batch_there waiting tt tracked-Reaches
      tracked_source
