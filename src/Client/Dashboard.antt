-- ===== src/Client/Dashboard.antt =====
-- pages/Dashboard.tsx with hooks/useFileUpload.ts and hooks/useProgressTracking.ts. A state is what
-- the components keep between two events, once the effects of the last event have run. A file is
-- its name.
pub mod Navigation
use csv_product_uploader.Prelude.{
  Bool, true, false, ◌&&◌, not, if◌then◌else◌, Option, none, some, String, str_eq,
}
use csv_product_uploader.Server.Entities.{BatchStatus, completed, failed, is_terminal}

pub data ViewMode : Type 0 where
  batches_mode products_mode upload_mode : ViewMode

-- `useFileUpload`
pub record FileUpload : Type 0 where
  pub file : Option String
  pub is_uploading : Bool
  pub error : Option String
  -- The id of `batch`.
  pub batch : Option String

-- `useProgressTracking`
pub record Tracking : Type 0 where
  -- The status in `progress`.
  pub progress : Option BatchStatus
  pub completed_batch_id : Option String
  -- The batch that the open event source is about.
  pub event_source : Option String

pub record Dashboard : Type 0 where
  pub view_mode : ViewMode
  pub selected_batch_id : Option String
  pub processing_batch_id : Option String
  pub pending_file : Option String
  pub upload : FileUpload
  pub tracking : Tracking

abbrev pub no_upload : FileUpload
no_upload = record { file = none; is_uploading = false; error = none; batch = none }

abbrev pub no_tracking : Tracking
no_tracking = record { progress = none; completed_batch_id = none; event_source = none }

abbrev pub initial : Dashboard
initial = record {
  view_mode = batches_mode;
  selected_batch_id = none;
  processing_batch_id = none;
  pending_file = none;
  upload = no_upload;
  tracking = no_tracking;
}

-- `!!id`
abbrev pub is_set : Option String → Bool
is_set none = false
is_set (some id) = not (str_eq id "")

-- `a === b` on ids that may be null.
abbrev pub same_id : Option String → Option String → Bool
same_id none none = true
same_id (some a) (some b) = str_eq a b
same_id _ _ = false

abbrev pub is_completed_status : Option BatchStatus → Bool
is_completed_status (some completed) = true
is_completed_status _ = false

abbrev pub is_failed_status : Option BatchStatus → Bool
is_failed_status (some failed) = true
is_failed_status _ = false

abbrev pub not_null : Option String → Bool
not_null none = false
not_null (some id) = true

-- `isComplete`
unfoldable pub is_complete : Dashboard → Bool
is_complete d =
    not_null d.processing_batch_id
    && same_id d.tracking.completed_batch_id d.processing_batch_id
    && is_completed_status d.tracking.progress

-- `isFailed`
unfoldable pub is_failed : Dashboard → Bool
is_failed d = is_failed_status d.tracking.progress

-- `isProcessing`
unfoldable pub is_processing : Dashboard → Bool
is_processing d = is_set d.processing_batch_id && not (is_complete d) && not (is_failed d)

-- `reset` of `useFileUpload`
unfoldable pub reset : FileUpload → FileUpload
reset u = record u { file = none; error = none; batch = none }

-- The effect of `useProgressTracking`, which runs when the batch changes.
unfoldable pub track : Option String → Tracking
track id = record {
  progress = none;
  completed_batch_id = none;
  event_source = if is_set id then id else none;
}

unfoldable pub set_processing : Option String → Dashboard → Dashboard
set_processing id d =
    if same_id d.processing_batch_id id
    then d
    else record d { processing_batch_id = id; tracking = track id }

-- The effect of `Dashboard` on completion.
unfoldable pub finish : Dashboard → Dashboard
finish d =
    if is_complete d && is_set d.processing_batch_id
    then set_processing none (record d {
      selected_batch_id = d.processing_batch_id;
      view_mode = products_mode;
      upload = reset d.upload;
    })
    else d

-- `onmessage`, for a message of the event source of batch `id`.
unfoldable pub on_message : String → BatchStatus → Tracking → Tracking
on_message id status t = record {
  progress = some status;
  completed_batch_id = if is_completed_status (some status) then some id else t.completed_batch_id;
  event_source = if is_terminal status then none else t.event_source;
}

pub data Event : Type 0 where
  file_selected : String → Event
  file_cleared upload_started : Event
  -- `uploadFile` resolves with a batch, or fails with a message.
  upload_resolved : String → Event
  upload_rejected : String → Event
  products_viewed : String → Event
  progress_viewed : String → Event
  batches_returned upload_opened upload_cancelled processing_left : Event
  -- What the open event source receives.
  message : BatchStatus → Event
  source_failed : Event

abbrev pub start_upload : Option String → Dashboard → Dashboard
start_upload none d = d
start_upload (some f) d = record d {
  upload = record d.upload { file = some f; error = none; is_uploading = true };
}

abbrev pub receive : Option String → BatchStatus → Dashboard → Dashboard
receive none status d = d
receive (some id) status d = finish (record d { tracking = on_message id status d.tracking })

-- The handlers, each with the effects that follow it.
unfoldable pub step : Event → Dashboard → Dashboard
step (file_selected f) d = record d {
  pending_file = some f;
  upload = record d.upload { error = none };
}
step file_cleared d = record d { pending_file = none }
step upload_started d = start_upload d.pending_file d
step (upload_resolved id) d = set_processing (some id) (record d {
  pending_file = none;
  upload = record d.upload { batch = some id; is_uploading = false };
})
step (upload_rejected m) d = record d {
  upload = record d.upload { error = some m; is_uploading = false };
}
step (products_viewed id) d = record d { selected_batch_id = some id; view_mode = products_mode }
step (progress_viewed id) d = set_processing (some id) d
step batches_returned d = record d { selected_batch_id = none; view_mode = batches_mode }
step upload_opened d = record d {
  upload = reset d.upload;
  pending_file = none;
  view_mode = upload_mode;
}
step upload_cancelled d = record d {
  upload = reset d.upload;
  pending_file = none;
  view_mode = batches_mode;
}
step processing_left d = set_processing none (record d { upload = reset d.upload })
step (message status) d = receive d.tracking.event_source status d
step source_failed d = record d { tracking = record d.tracking { event_source = none } }

-- What is rendered: `ProcessingView` with the progress and `isFailed`, the products with the
-- batch's id.
pub data View : Type 0 where
  processing_view : Option BatchStatus → Bool → View
  upload_view : Option String → Bool → Option String → View
  products_view : String → View
  batch_list : View
  nothing : View

abbrev pub products_of : Option String → View
products_of none = nothing
products_of (some id) = if str_eq id "" then nothing else products_view id

abbrev pub view_of : ViewMode → Dashboard → View
view_of upload_mode d = upload_view d.pending_file d.upload.is_uploading d.upload.error
view_of products_mode d = products_of d.selected_batch_id
view_of batches_mode d = batch_list

unfoldable pub render : Dashboard → View
render d =
    if is_processing d
    then processing_view d.tracking.progress (is_failed d)
    else view_of d.view_mode d
