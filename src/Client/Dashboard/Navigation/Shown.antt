-- ===== src/Client/Dashboard/Navigation/Shown.antt =====
-- pages/Dashboard.tsx: the views in the states that the events lead to.
use csv_product_uploader.Prelude.{
  true, false, Option, none, some, String, str_eq, ◌≡◌, refl, arith, Bool-cases, inl, inr, ap, ◌∙◌,
}
use csv_product_uploader.Server.Entities.{completed, failed}
use csv_product_uploader.Client.Dashboard.{
  ViewMode, batches_mode, products_mode, upload_mode, Dashboard, FileUpload, Tracking, is_set,
  is_failed, is_processing, reset, track, on_message, message, receive, step, View, processing_view,
  upload_view, products_view, batch_list, nothing, products_of, view_of, render,
}
use csv_product_uploader.Client.Dashboard.Navigation.{
  IsChosen, Reaches, receive_completed, receive_running, Reaches-IsWell,
}

-- What is shown: never nothing, and never the processing view with a failure.
abbrev pub IsShown : View → Type 0
IsShown (processing_view progress has_failed) = has_failed ≡ false
IsShown (upload_view file busy e) = Unit
IsShown (products_view id) = Unit
IsShown batch_list = Unit
IsShown nothing = ⊥

products_of-IsShown : (id : Option String) → is_set id ≡ true → IsShown (products_of id)
products_of-IsShown none h = absurd (ground arith)
products_of-IsShown (some id) h = elim (Bool-cases (str_eq id "")) [
  | inl empty ↦ absurd (ground arith)
  | inr named ↦ rw named tt
]

busy_running : (d : Dashboard) → is_processing d ≡ true → is_failed d ≡ false
unfolding is_processing
busy_running d h = ground arith

view_of-IsShown :
    (mode : ViewMode) (d : Dashboard) → IsChosen mode d.selected_batch_id → IsShown (view_of mode d)
unfolding IsChosen
view_of-IsShown batches_mode d c = tt
view_of-IsShown upload_mode d c = tt
view_of-IsShown products_mode d c = products_of-IsShown d.selected_batch_id c

-- In every state that the events lead to from the first one, something is shown, and the processing
-- view is never shown with `isFailed`: its message of a failure and its 'Try Again' are not
-- reached. Asked is that the ids of batches are not empty.
pub Reaches-IsShown : (d : Dashboard) → Reaches d → IsShown (render d)
unfolding render
Reaches-IsShown d r = elim (Bool-cases (is_processing d)) [
  | inl busy ↦ rw busy (busy_running d busy)
  | inr idle ↦ rw idle (view_of-IsShown d.view_mode d (Reaches-IsWell d r).chosen)
]

shows_products :
    (id : String) (u : FileUpload) (d : Dashboard)
    → str_eq id "" ≡ false
    → render (record d {
      selected_batch_id = some id;
      view_mode = products_mode;
      upload = u;
      processing_batch_id = none;
      tracking = track none;
    })
      ≡ products_view id
unfolding render is_processing
shows_products id u d h = rw h refl

pub view_of-tracking :
    (mode : ViewMode) (t : Tracking) (d : Dashboard)
    → view_of mode (record d { tracking = t }) ≡ view_of mode d
view_of-tracking batches_mode t d = refl
view_of-tracking products_mode t d = refl
view_of-tracking upload_mode t d = refl

failed_idle :
    (id : String) (d : Dashboard)
    → is_processing (record d { tracking = on_message id failed d.tracking }) ≡ false
unfolding is_processing is_failed on_message
failed_idle id d = ground arith

shows_below :
    (id : String) (d : Dashboard)
    → render (record d { tracking = on_message id failed d.tracking }) ≡ view_of d.view_mode d
unfolding render
shows_below id d =
    rw (failed_idle id d) (view_of-tracking d.view_mode (on_message id failed d.tracking) d)

-- When the last message about the tracked batch arrives, in any state that the events lead to, the
-- user is shown the products of that batch if it says completed; if it says failed, the user is
-- shown whatever stood below the processing view, as before. Asked is that the event source is
-- still there and that the ids of batches are not empty.
pub message-shows :
    (id : String) (d : Dashboard)
    → Reaches d
    → d.tracking.event_source ≡ some id
    → (render (step (message completed) d) ≡ products_view id)
      × (render (step (message failed) d) ≡ view_of d.view_mode d)
unfolding step
message-shows id d r s =
    let w = Reaches-IsWell d r in
    let p = w.sourced id s in
    let n = w.named id p in
    (
      ap (λ source. render (receive source completed d)) s
          ∙ (ap render (receive_completed id d n p) ∙ shows_products id (reset d.upload) d n),
      ap (λ source. render (receive source failed d)) s
          ∙ (ap render (receive_running id failed d refl) ∙ shows_below id d),
    )
