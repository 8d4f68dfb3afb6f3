-- ===== src/Client/Dashboard/Navigation.antt =====
-- pages/Dashboard.tsx: the states that the events lead to.
pub mod Shown
use csv_product_uploader.Prelude.{
  true, false, Option, none, some, String, str_eq, eq_refl, ◌≡◌, refl, arith, Bool-cases, inl, inr,
  ap, ◌∙◌,
}
use csv_product_uploader.Server.Entities.{BatchStatus, pending, processing, completed, failed}
use csv_product_uploader.Client.Dashboard.{
  ViewMode, batches_mode, products_mode, upload_mode, Dashboard, FileUpload, Tracking, initial,
  is_set, same_id, is_completed_status, is_complete, is_failed, is_processing, reset, track,
  set_processing, finish, on_message, Event, file_selected, file_cleared, upload_started,
  upload_resolved, upload_rejected, products_viewed, progress_viewed, batches_returned,
  upload_opened, upload_cancelled, processing_left, message, source_failed, start_upload, receive,
  step, View, processing_view, upload_view, products_view, batch_list, nothing, products_of,
  view_of, render,
}

-- The products are shown for a batch only.
unfoldable pub IsChosen : ViewMode → Option String → Type 0
IsChosen products_mode selected = is_set selected ≡ true
IsChosen batches_mode selected = Unit
IsChosen upload_mode selected = Unit

pub record IsConsistent (mode : ViewMode) (selected processed : Option String) (t : Tracking)
    : Type 0 where
  pub chosen : IsChosen mode selected
  pub unmarked : t.completed_batch_id ≡ none
  pub sourced : (id : String) → t.event_source ≡ some id → processed ≡ some id
  pub idle : processed ≡ none → t.progress ≡ none
  pub unfinished : is_completed_status t.progress ≡ false
  pub named : (id : String) → processed ≡ some id → str_eq id "" ≡ false

abbrev pub IsWell : Dashboard → Type 0
IsWell d = IsConsistent d.view_mode d.selected_batch_id d.processing_batch_id d.tracking

-- The ids of batches, which the server gives, are not empty.
abbrev pub IsNamed : Event → Type 0
IsNamed (upload_resolved id) = str_eq id "" ≡ false
IsNamed (products_viewed id) = str_eq id "" ≡ false
IsNamed (progress_viewed id) = str_eq id "" ≡ false
IsNamed _ = Unit

pub data Reaches : Dashboard → Type 0 where
  started : Reaches initial
  stepped : (e : Event) (d : Dashboard) → IsNamed e → Reaches d → Reaches (step e d)

track-IsConsistent :
    (mode : ViewMode) (selected id : Option String)
    → IsChosen mode selected
    → ((i : String) → id ≡ some i → str_eq i "" ≡ false)
    → IsConsistent mode selected id (track id)
unfolding track
track-IsConsistent mode selected none c n = record {
  chosen = c;
  unmarked = refl;
  sourced = λ i e. absurd (ground arith);
  idle = λ e. refl;
  unfinished = refl;
  named = n;
}
track-IsConsistent mode selected (some id) c n = record {
  chosen = c;
  unmarked = refl;
  sourced = λ i e. ground arith;
  idle = λ e. refl;
  unfinished = refl;
  named = n;
}

set_processing-IsWell :
    (id : Option String) (d : Dashboard)
    → ((i : String) → id ≡ some i → str_eq i "" ≡ false)
    → IsWell d
    → IsWell (set_processing id d)
unfolding set_processing
set_processing-IsWell id d n w = elim (Bool-cases (same_id d.processing_batch_id id)) [
  | inl same ↦ rw same w
  | inr changed ↦ rw changed (track-IsConsistent d.view_mode d.selected_batch_id id w.chosen n)
]

named_id :
    (id : String) → str_eq id "" ≡ false → (i : String) → some id ≡ some i → str_eq i "" ≡ false
named_id id h i e = ground arith

-- A completed batch: its products are shown, and it is tracked no more.
pub receive_completed :
    (id : String) (d : Dashboard)
    → str_eq id "" ≡ false
    → d.processing_batch_id ≡ some id
    → receive (some id) completed d ≡ record d {
      selected_batch_id = some id;
      view_mode = products_mode;
      upload = reset d.upload;
      processing_batch_id = none;
      tracking = track none;
    }
unfolding finish is_complete set_processing on_message
receive_completed id d h p = rw (p, eq_refl id, h) refl

-- Any other message changes what is tracked only.
pub receive_running :
    (id : String) (status : BatchStatus) (d : Dashboard)
    → is_completed_status (some status) ≡ false
    → receive (some id) status d ≡ record d { tracking = on_message id status d.tracking }
unfolding finish is_complete on_message
receive_running id status d h =
    let e : is_complete (record d { tracking = on_message id status d.tracking }) ≡ false =
      ground arith in
    rw e refl

running-IsWell :
    (id : String) (status : BatchStatus) (d : Dashboard)
    → is_completed_status (some status) ≡ false
    → d.tracking.event_source ≡ some id
    → IsWell d
    → IsWell (receive (some id) status d)
unfolding on_message
running-IsWell id status d h s w =
    let p = w.sourced id s in
    rw (receive_running id status d h) (record {
      chosen = w.chosen;
      unmarked = rw h w.unmarked;
      sourced = λ i e. w.sourced i (ground arith);
      idle = λ e. absurd (ground arith);
      unfinished = h;
      named = w.named;
    })

receive-IsWell :
    (status : BatchStatus) (source : Option String) (d : Dashboard)
    → d.tracking.event_source ≡ source
    → IsWell d
    → IsWell (receive source status d)
unfolding IsChosen on_message finish is_complete
receive-IsWell status none d s w = w
receive-IsWell completed (some id) d s w =
    let p = w.sourced id s in
    let n = w.named id p in
    rw (receive_completed id d n p)
      (track-IsConsistent products_mode (some id) none (rw n refl) (λ i e. absurd (ground arith)))
receive-IsWell failed (some id) d s w = running-IsWell id failed d refl s w
receive-IsWell pending (some id) d s w = running-IsWell id pending d refl s w
receive-IsWell processing (some id) d s w = running-IsWell id processing d refl s w

elsewhere-IsWell :
    (d : Dashboard) (mode : ViewMode) (selected : Option String)
    → IsChosen mode selected
    → IsWell d
    → IsConsistent mode selected d.processing_batch_id d.tracking
elsewhere-IsWell d mode selected c w = record {
  chosen = c;
  unmarked = w.unmarked;
  sourced = w.sourced;
  idle = w.idle;
  unfinished = w.unfinished;
  named = w.named;
}

start_upload-IsWell : (f : Option String) (d : Dashboard) → IsWell d → IsWell (start_upload f d)
start_upload-IsWell none d w = w
start_upload-IsWell (some f) d w = w

step-IsWell : (e : Event) (d : Dashboard) → IsNamed e → IsWell d → IsWell (step e d)
unfolding step IsChosen
step-IsWell (file_selected f) d n w = w
step-IsWell file_cleared d n w = w
step-IsWell upload_started d n w = start_upload-IsWell d.pending_file d w
step-IsWell (upload_resolved id) d n w = set_processing-IsWell (some id) _ (named_id id n) w
step-IsWell (upload_rejected m) d n w = w
step-IsWell (products_viewed id) d n w = elsewhere-IsWell d products_mode (some id) (rw n refl) w
step-IsWell (progress_viewed id) d n w = set_processing-IsWell (some id) d (named_id id n) w
step-IsWell batches_returned d n w = elsewhere-IsWell d _ _ tt w
step-IsWell upload_opened d n w = elsewhere-IsWell d _ _ tt w
step-IsWell upload_cancelled d n w = elsewhere-IsWell d _ _ tt w
step-IsWell processing_left d n w = set_processing-IsWell none _ (λ i e. absurd (ground arith)) w
step-IsWell (message status) d n w = receive-IsWell status d.tracking.event_source d refl w
step-IsWell source_failed d n w = record {
  chosen = w.chosen;
  unmarked = w.unmarked;
  sourced = λ i e. absurd (ground arith);
  idle = w.idle;
  unfinished = w.unfinished;
  named = w.named;
}

pub Reaches-IsWell : (d : Dashboard) → Reaches d → IsWell d
unfolding IsChosen
Reaches-IsWell _ started = record {
  chosen = tt;
  unmarked = refl;
  sourced = λ i e. absurd (ground arith);
  idle = λ e. refl;
  unfinished = refl;
  named = λ i e. absurd (ground arith);
}
Reaches-IsWell _ (stepped e d n r) = step-IsWell e d n (Reaches-IsWell d r)
