-- ===== src/Watching/Failing.antt =====
-- From jobs/csv.processor.ts on the server to pages/Dashboard.tsx on the client: an import that fails,
-- as the user who watches it sees it.
use mathlib.Core.List.{append_assoc}
use csv_product_uploader.Prelude.{
  ◌<◌, false, List, [], ◌∷◌, ◌++◌, Option, some, String, ◌≡◌, refl, sym, ap, ◌∙◌, All, ◌≢◌, Bool,
  none, str_eq, Bool-cases, inl, inr,
}
use csv_product_uploader.Server.Entities.{
  UploadBatch, ProgressEvent, BatchStatus, failed, is_terminal,
}
use csv_product_uploader.Server.Batches.{find_batch}
use csv_product_uploader.Server.World.{World, err, Thrown, IsQuiet}
use csv_product_uploader.Server.Csv.Processor.{attempt, handle_process_csv, event, message_of}
use csv_product_uploader.Server.Csv.Failure.{handle_process_csv-Fails}
use csv_product_uploader.Server.Csv.Emissions.{attempt-Warns}
use csv_product_uploader.Server.Upload.Hub.{Hub, subscribe, initial_event, initial_status}
use csv_product_uploader.Client.Dashboard.{
  Dashboard, message, step, receive, render, on_message, view_of, processing_view, products_of,
  ViewMode, upload_mode, products_mode, batches_mode,
}
use csv_product_uploader.Client.Dashboard.Navigation.{Reaches, stepped, receive_running}
use csv_product_uploader.Client.Dashboard.Navigation.Shown.{message-shows, view_of-tracking}
use csv_product_uploader.Watching.Delivery.{IsRunning, emit_all, ended_stream, watched-streams}
use csv_product_uploader.Watching.Arrival.{receive_all, not_completed, step-source}

-- A message of a running batch changes nothing below the processing view.
step-view_of :
    (id : String) (s : BatchStatus) (d : Dashboard)
    → is_terminal s ≡ false
    → d.tracking.event_source ≡ some id
    → view_of (step (message s) d).view_mode (step (message s) d) ≡ view_of d.view_mode d
unfolding step
step-view_of id s d h e =
    ap (λ source. view_of (receive source s d).view_mode (receive source s d)) e
    ∙ (ap (λ (f : Dashboard). view_of f.view_mode f) (receive_running id s d (not_completed s h))
        ∙ view_of-tracking d.view_mode (on_message id s d.tracking) d)

-- Messages of a running batch, and then that it has failed.
receive_all-view_of :
    (id : String) (es : List ProgressEvent) (e : ProgressEvent) (d : Dashboard)
    → Reaches d
    → d.tracking.event_source ≡ some id
    → All IsRunning es
    → e.status ≡ failed
    → render (receive_all (es ++ e ∷ []) d) ≡ view_of d.view_mode d
unfolding receive_all
receive_all-view_of id [] e d r s a c =
    ap (λ status. render (step (message status) d)) c ∙ (message-shows id d r s).1
receive_all-view_of id (f ∷ es) e d r s (h, a) c =
    receive_all-view_of id es e (step (message f.status) d) (stepped (message f.status) d tt r)
      (step-source id f.status d h s) a c
    ∙ step-view_of id f.status d h s

products_of-not_processing :
    (o : Option String) (p : Option BatchStatus) (has_failed : Bool)
    → products_of o ≢ processing_view p has_failed
products_of-not_processing none p x = λ h. cc
products_of-not_processing (some id) p x = elim (Bool-cases (str_eq id "")) [
  | inl empty ↦ rw empty (λ h. cc)
  | inr named ↦ rw named (λ h. cc)
]

view_of-not_processing :
    (v : ViewMode) (d : Dashboard) (p : Option BatchStatus) (has_failed : Bool)
    → view_of v d ≢ processing_view p has_failed
view_of-not_processing upload_mode d p x h = cc
view_of-not_processing products_mode d p x h = products_of-not_processing d.selected_batch_id p x h
view_of-not_processing batches_mode d p x h = cc

-- An import whose `try` block throws, at whatever point, ends for the user who watches it with the
-- view that was below the processing view, never with the processing view of a failed batch. (Where
-- that view is the list of batches, the list has a status of its own for each batch.) The client opens
-- a stream of the batch before the job starts; the calls of the `catch` block do not throw; the batch
-- is there. Then the stream sends the batch's status and all the events of the job, in order, the last
-- of which says failed, and ends; and the dashboard, given the same messages in any state that it can
-- reach and in which it tracks the batch, shows what it showed below, which is no processing view.
-- Asked is that the service never gave out the stream's number before, and that the status read at
-- first is not a last one.
pub failed_import-shows :
    (id path : String) (user_id : Option String) (w v : World) (e : Thrown) (stored b : UploadBatch)
    (h : Hub) (d : Dashboard)
    → attempt id path user_id w ≡ (err e, v)
    → IsQuiet v.script
    → find_batch id v.batches ≡ some stored
    → is_terminal b.status ≡ false
    → All (λ s. s.emitter < h.next_emitter) h.streams
    → Reaches d
    → d.tracking.event_source ≡ some id
    → (es : List ProgressEvent) × ((handle_process_csv id path user_id w).1.emitted
        ≡ w.emitted ++ es)
      × ((emit_all id es (initial_status h.next_emitter id (some b) (subscribe id h))).streams
          ≡ h.streams ++ ended_stream id h.next_emitter (initial_event b ∷ es) ∷ [])
      × (render (receive_all (initial_event b ∷ es) d) ≡ view_of d.view_mode d)
      × ((p : Option BatchStatus) (has_failed : Bool)
          → render (receive_all (initial_event b ∷ es) d) ≢ processing_view p has_failed)
unfolding initial_event
failed_import-shows id path user_id w v e stored b h d threw quiet found waiting older r s =
    let f = handle_process_csv-Fails id path user_id w v e stored threw quiet found in
    let told = attempt-Warns id path user_id w e (ap (λ x. x.0) threw) in
    let shown =
      receive_all-view_of id (initial_event b ∷ told.events)
        (event id 0 0 failed (some (message_of e)) f.ended) d r s (waiting, told.running) refl in
    let last = event id 0 0 failed (some (message_of e)) f.ended in
    (
      told.events ++ last ∷ [],
      f.emitted
          ∙ (ap (λ (l : List ProgressEvent). l ++ last ∷ [])
                (sym (ap (λ x. x.1.emitted) threw) ∙ told.emitted)
              ∙ append_assoc w.emitted told.events (last ∷ [])),
      watched-streams id b told.events last h older waiting told.running refl,
      shown,
      λ p x h. view_of-not_processing d.view_mode d p x (sym shown ∙ h),
    )
