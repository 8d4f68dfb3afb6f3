-- ===== src/Client/Panels/Offers.antt =====
-- components/BatchList.tsx with pages/Dashboard.tsx: what the buttons of a batch lead to.
use csv_product_uploader.Prelude.{false, Option, none, some, String, str_eq, ◌≡◌, refl}
use csv_product_uploader.Server.Entities.{
  UploadBatch, BatchStatus, pending, processing, completed, failed,
}
use csv_product_uploader.Client.Dashboard.{
  Dashboard, Event, products_viewed, progress_viewed, is_processing, is_complete, is_failed,
  set_processing, track, step, render, products_view, processing_view,
}
use csv_product_uploader.Client.Panels.{action_button, batch_row}

-- The screen that the button of a batch leads to; without a button the user stays where he is.
abbrev pub Opens : BatchStatus → String → Option (String × Event) → Dashboard → Type 0
Opens completed id (some (label, e)) d = render (step e d) ≡ products_view id
Opens processing id (some (label, e)) d = render (step e d) ≡ processing_view none false
Opens completed id none d = ⊥
Opens processing id none d = ⊥
Opens pending id o d = o ≡ none
Opens failed id o d = o ≡ none

shows_chosen :
    (id : String) (d : Dashboard)
    → str_eq id "" ≡ false
    → is_processing d ≡ false
    → render (step (products_viewed id) d) ≡ products_view id
unfolding render step is_processing is_complete is_failed
shows_chosen id d h p = rw (p, h) refl

shows_progress :
    (id : String) (d : Dashboard)
    → str_eq id "" ≡ false
    → d.processing_batch_id ≡ none
    → render (step (progress_viewed id) d) ≡ processing_view none false
unfolding render step set_processing track is_processing is_complete is_failed
shows_progress id d h p = rw (p, h) refl

idle : (d : Dashboard) → d.processing_batch_id ≡ none → is_processing d ≡ false
unfolding is_processing
idle d p = rw p refl

opens :
    (s : BatchStatus) (id : String) (d : Dashboard)
    → str_eq id "" ≡ false
    → d.processing_batch_id ≡ none
    → Opens s id (action_button s id) d
opens pending id d h p = refl
opens failed id d h p = refl
opens completed id d h p = shows_chosen id d h (idle d p)
opens processing id d h p = shows_progress id d h p

-- In a state in which no batch is tracked, the button of a batch leads to its products if it is
-- completed, and to the processing view, which waits for its first message, if it is being
-- processed; a batch that is pending or failed has no button. Asked is that the batch's id is not
-- empty.
pub batch_row-Opens :
    (b : UploadBatch) (d : Dashboard)
    → str_eq b.id "" ≡ false
    → d.processing_batch_id ≡ none
    → Opens b.status b.id (batch_row b).action d
unfolding batch_row
batch_row-Opens b d h p = opens b.status b.id d h p
