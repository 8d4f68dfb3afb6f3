-- ===== src/Watching/Arrival.antt =====
-- From jobs/csv.processor.ts on the server to pages/Dashboard.tsx on the client: an import that
-- succeeds, as the user who watches it sees it.
use csv_product_uploader.Prelude.{
  ℕ, ◌<◌, false, List, [], ◌∷◌, ◌++◌, length, Option, none, some, String, ◌≡◌, refl, ap, ◌∙◌, arith,
  All, All-mono,
}
use csv_product_uploader.Server.Entities.{
  UploadBatch, ProgressEvent, BatchStatus, pending, processing, completed, failed, is_terminal,
  or_null,
}
use csv_product_uploader.Server.World.{World}
use csv_product_uploader.Server.Csv.Rows.{CsvRow, validate_rows}
use csv_product_uploader.Server.Csv.Processor.{handle_process_csv, event}
use csv_product_uploader.Server.Csv.Success.{IsStep}
use csv_product_uploader.Server.Csv.Import.{IsReady, handle_process_csv-Imports}
use csv_product_uploader.Server.Upload.Hub.{Hub, subscribe, initial_event, initial_status}
use csv_product_uploader.Client.Dashboard.{
  Dashboard, message, step, receive, render, products_view, on_message, is_completed_status,
}
use csv_product_uploader.Client.Dashboard.Navigation.{Reaches, stepped, receive_running}
use csv_product_uploader.Client.Dashboard.Navigation.Shown.{message-shows}
use csv_product_uploader.Watching.Delivery.{IsRunning, emit_all, ended_stream, watched-streams}

-- The messages of the event source, one for each event that the stream sends.
unfoldable pub receive_all : List ProgressEvent → Dashboard → Dashboard
receive_all [] d = d
receive_all (e ∷ es) d = receive_all es (step (message e.status) d)

pub not_completed : (s : BatchStatus) → is_terminal s ≡ false → is_completed_status (some s) ≡ false
not_completed pending h = refl
not_completed processing h = refl
not_completed completed h = absurd (ground arith)
not_completed failed h = refl

-- A message that is not the last one leaves the event source in place.
pub step-source :
    (id : String) (s : BatchStatus) (d : Dashboard)
    → is_terminal s ≡ false
    → d.tracking.event_source ≡ some id
    → (step (message s) d).tracking.event_source ≡ some id
unfolding step on_message
step-source id s d h e =
    ap (λ source. (receive source s d).tracking.event_source) e
    ∙ (ap (λ (f : Dashboard). f.tracking.event_source) (receive_running id s d (not_completed s h))
        ∙ rw h e)

-- Messages of a running batch, and then that it is completed.
receive_all-shows :
    (id : String) (es : List ProgressEvent) (e : ProgressEvent) (d : Dashboard)
    → Reaches d
    → d.tracking.event_source ≡ some id
    → All IsRunning es
    → e.status ≡ completed
    → render (receive_all (es ++ e ∷ []) d) ≡ products_view id
unfolding receive_all
receive_all-shows id [] e d r s a c =
    ap (λ status. render (step (message status) d)) c ∙ (message-shows id d r s).0
receive_all-shows id (f ∷ es) e d r s (h, a) c =
    receive_all-shows id es e (step (message f.status) d) (stepped (message f.status) d tt r)
      (step-source id f.status d h s) a c

step-IsRunning : (id : String) (n : ℕ) (e : ProgressEvent) → IsStep id n e → IsRunning e
step-IsRunning id n e s = ap is_terminal s.1

-- An import that nothing disturbs ends for the user who watches it with the products on the screen.
-- The client opens a stream of the batch before the job starts; the server reads a status of the
-- batch that is not a last one. Then the job of an import that is ready sends some events; the
-- stream sends the status and all of these events, in order, and ends, and no other stream gets
-- any; and the dashboard, given the same messages in any state that it can reach and in which it
-- tracks the batch, shows the products of the batch. Asked is that the service never gave out the
-- stream's number before.
pub watched_import-shows :
    (id path : String) (user_id : Option String) (content : List CsvRow) (w : World)
    (b : UploadBatch) (h : Hub) (d : Dashboard)
    → IsReady id path content w
    → is_terminal b.status ≡ false
    → All (λ s. s.emitter < h.next_emitter) h.streams
    → Reaches d
    → d.tracking.event_source ≡ some id
    → (es : List ProgressEvent) × ((handle_process_csv id path user_id w).1.emitted
        ≡ w.emitted ++ es)
      × ((emit_all id es (initial_status h.next_emitter id (some b) (subscribe id h))).streams
          ≡ h.streams ++ ended_stream id h.next_emitter (initial_event b ∷ es) ∷ [])
      × (render (receive_all (initial_event b ∷ es) d) ≡ products_view id)
unfolding initial_event
watched_import-shows id path user_id content w b h d ready waiting older r s =
    let i = handle_process_csv-Imports id path user_id content w ready in
    let n = length (validate_rows content id (or_null user_id)) in
    let last = event id n n completed none i.ended in
    let running = All-mono (IsStep id n) IsRunning i.steps (step-IsRunning id n) i.counted in
    (
      i.steps ++ last ∷ [],
      i.emitted,
      watched-streams id b i.steps last h older waiting running refl,
      receive_all-shows id (initial_event b ∷ i.steps) last d r s (waiting, running) refl,
    )
