-- ===== src/Witnesses/Uploads.antt =====
-- The streams of one batch, the list of a user's batches, and the dashboard.
use mathlib.Core.List.{Perm}
use csv_product_uploader.Prelude.{
  ◌<◌, true, not, ◌==◌, ◌&&◌, List, [], ◌∷◌, ◌++◌, none, some, All, any, select, ◌≡◌, refl, arith,
}
use csv_product_uploader.Js.Number.{of_ℕ}
use csv_product_uploader.Server.Entities.{UploadBatch, ProgressEvent, processing}
use csv_product_uploader.Witnesses.Decimals.{six_places}
use csv_product_uploader.Server.World.{World, ok, settle}
use csv_product_uploader.Server.Upload.Service.{new_batch, belongs_to}
use csv_product_uploader.Server.Upload.Controller.{get_batches, answer}
use csv_product_uploader.Server.Upload.Listing.{IsNewestFirst, get_batches-own}
use csv_product_uploader.Server.Upload.Hub.{
  Hub, empty_hub, subscribe, register_progress_emitter, emit_progress, disconnect, receive,
}
use csv_product_uploader.Server.Upload.Streams.{Reaches, started, opened, emitted, IsOrderly}
use csv_product_uploader.Server.Upload.Streams.Reached.{Reaches-IsOrderly}
use csv_product_uploader.Server.Upload.Sharing.{
  opened_stream, disconnect-silences, subscribe-replaces,
}
use csv_product_uploader.Client.Dashboard
use csv_product_uploader.Client.Dashboard.Navigation
use csv_product_uploader.Client.Dashboard.Navigation.Shown.{IsShown, Reaches-IsShown}

abbrev world : World
world = record {
  batches = new_batch "b1" "milk.csv" (some "u1") 5 ∷ new_batch "b2" "tea.csv" (some "u1") 9 ∷ [];
  products = [];
  rates = [];
  files = [];
  queue = [];
  cached_rates = none;
  cache_timestamp = 0;
  emitted = [];
  job_progress = [];
  script = [];
  api = [];
  now = 10;
  decimal = six_places;
}

get_batches-own_example :
    (bs : List UploadBatch) × (get_batches (some "u1") world ≡ (ok (answer bs), settle world))
    × Perm bs (select (λ b. belongs_to "u1" b.user_id) world.batches)
    × IsNewestFirst bs
get_batches-own_example = get_batches-own "u1" world tt refl

abbrev progress : ProgressEvent
progress = record {
  id = "b1";
  status = processing;
  total_rows = 10;
  processed_rows = 5;
  percentage = of_ℕ 50;
  error_message = none;
  updated_at = 7;
}

-- Two clients watch the batch.
abbrev watched : Hub
watched = subscribe "b1" (subscribe "b1" empty_hub)

watched-Reaches : Reaches (emit_progress "b1" progress watched)
watched-Reaches =
    emitted "b1" progress watched refl
      (opened "b1" (subscribe "b1" empty_hub) (opened "b1" empty_hub started))

Reaches-IsOrderly_example : All IsOrderly (emit_progress "b1" progress watched).streams
Reaches-IsOrderly_example = Reaches-IsOrderly (emit_progress "b1" progress watched) watched-Reaches

first_is_there : any (λ s. s.emitter == 0 && not s.closed) watched.streams ≡ true
unfolding subscribe register_progress_emitter
first_is_there = refl

disconnect-silences_example :
    emit_progress "b1" progress (disconnect 0 "b1" watched) ≡ disconnect 0 "b1" watched
disconnect-silences_example = disconnect-silences 0 "b1" progress watched first_is_there

one_taken : All (λ s. s.emitter < 1) (subscribe "b1" empty_hub).streams
unfolding subscribe register_progress_emitter
one_taken = (omega arith, tt)

subscribe-replaces_example :
    (emit_progress "b1" progress watched).streams
    ≡ (subscribe "b1" empty_hub).streams ++ receive progress (opened_stream "b1" 1) ∷ []
unfolding subscribe register_progress_emitter
subscribe-replaces_example = subscribe-replaces "b1" progress (subscribe "b1" empty_hub) one_taken

abbrev tracked : Dashboard.Dashboard
tracked = Dashboard.step (Dashboard.progress_viewed "b1") Dashboard.initial

tracked-Reaches : Navigation.Reaches tracked
tracked-Reaches =
    Navigation.stepped (Dashboard.progress_viewed "b1") Dashboard.initial refl Navigation.started

tracked_source : tracked.tracking.event_source ≡ some "b1"
unfolding Dashboard.step Dashboard.set_processing Dashboard.track
tracked_source = refl

Reaches-IsShown_example : IsShown (Dashboard.render tracked)
Reaches-IsShown_example = Reaches-IsShown tracked tracked-Reaches
