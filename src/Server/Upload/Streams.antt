-- ===== src/Server/Upload/Streams.antt =====
-- upload/upload.controller.ts, `streamProgress`, with the emitters of upload/upload.service.ts:
-- what the streams of all clients have sent, whatever the order of their steps.
pub mod Reached
pub mod Moves
use csv_product_uploader.Prelude.{
  ℕ, zero, suc, ◌<◌, ◌≤◌, Bool, true, false, not, ◌==◌, ◌&&◌, if◌then◌else◌, List, [], ◌∷◌, ◌++◌,
  Option, none, some, String, str_eq, eq_iff, eq_refl, ==_iff, ◌∙◌, ◌≡◌, refl, arith, All,
  All-append, any, Bool-cases, inl, inr, subst, sym,
}
use csv_product_uploader.Server.Entities.{UploadBatch, BatchStatus, is_terminal, ProgressEvent}
use csv_product_uploader.Server.Upload.Hub.{
  Stream, Hub, lookup_emitter, delete_emitter, register_progress_emitter,
  unregister_progress_emitter, update_stream, next_event, send_progress, close_stream,
  complete_stream, receive, listens, deliver, completes, unregister_if, emit_to, emit_progress,
  subscribe, initial_event, disconnect, initial_status, empty_hub,
}

-- Only the last event of a list may have a last status.
unfoldable pub EndsOnce : List ProgressEvent → Type 0
EndsOnce [] = Unit
EndsOnce (e ∷ []) = Unit
EndsOnce (e ∷ f ∷ es) = (is_terminal e.status ≡ false) × EndsOnce (f ∷ es)

abbrev pub IsRunning : ProgressEvent → Type 0
IsRunning e = is_terminal e.status ≡ false

-- A stream that sends events of its own batch only, and nothing after an event with a last status.
pub record IsOrderly (s : Stream) : Type 0 where
  pub own : All (λ e. e.id ≡ s.batch_id) s.sent
  pub ends : EndsOnce s.sent
  pub running : s.closed ≡ false → All IsRunning s.sent
  pub quits : s.closed ≡ false → s.is_completed ≡ false

-- The emitter is of the batch's streams only.
abbrev pub IsOf : String → ℕ → Stream → Type 0
IsOf id n s = s.emitter ≡ n → s.batch_id ≡ id

pub record IsWell (h : Hub) : Type 0 where
  pub orderly : All IsOrderly h.streams
  pub emitters : All (λ e. All (IsOf e.0 e.1) h.streams) h.progress_emitters
  pub taken : All (λ s. s.emitter < h.next_emitter) h.streams
  pub known : All (λ e. e.1 < h.next_emitter) h.progress_emitters

-- The steps of the service and of its streams, in any order: a client opens a stream, the processor
-- emits, the awaited status of a stream arrives, a client leaves.
pub data Reaches : Hub → Type 0 where
  started : Reaches empty_hub
  opened : (id : String) (h : Hub) → Reaches h → Reaches (subscribe id h)
  emitted :
      (id : String) (e : ProgressEvent) (h : Hub)
      → e.id ≡ id
      → Reaches h
      → Reaches (emit_progress id e h)
  answered :
      (n : ℕ) (id : String) (b : UploadBatch) (h : Hub)
      → b.id ≡ id
      → All (IsOf id n) h.streams
      → Reaches h
      → Reaches (initial_status n id (some b) h)
  left : (n : ℕ) (id : String) (h : Hub) → Reaches h → Reaches (disconnect n id h)

pub EndsOnce-snoc :
    (e : ProgressEvent) (es : List ProgressEvent) → All IsRunning es → EndsOnce (es ++ e ∷ [])
unfolding EndsOnce
EndsOnce-snoc e [] a = tt
EndsOnce-snoc e (f ∷ []) (h, a) = (h, tt)
EndsOnce-snoc e (f ∷ g ∷ es) (h, a) = (h, EndsOnce-snoc e (g ∷ es) a)

pub close_stream-IsOrderly : (s : Stream) → IsOrderly s → IsOrderly (close_stream s)
unfolding close_stream
close_stream-IsOrderly s o = record {
  own = o.own;
  ends = o.ends;
  running = λ h. absurd (ground arith);
  quits = λ h. absurd (ground arith);
}

complete_stream-IsOrderly :
    (s : Stream)
    → All (λ e. e.id ≡ s.batch_id) s.sent
    → EndsOnce s.sent
    → IsOrderly (complete_stream s)
unfolding complete_stream close_stream
complete_stream-IsOrderly s o n = record {
  own = o;
  ends = n;
  running = λ h. absurd (ground arith);
  quits = λ h. absurd (ground arith);
}

send_progress_closed : (e : ProgressEvent) (s : Stream) → s.closed ≡ true → send_progress e s ≡ s
unfolding send_progress next_event
send_progress_closed e s h = ground arith

send_progress_open :
    (e : ProgressEvent) (s : Stream)
    → s.closed ≡ false
    → s.is_completed ≡ false
    → send_progress e s ≡ record s { sent = s.sent ++ e ∷ [] }
unfolding send_progress next_event
send_progress_open e s h k = rw (h, k) refl

pub receive-IsOrderly :
    (e : ProgressEvent) (s : Stream) → e.id ≡ s.batch_id → IsOrderly s → IsOrderly (receive e s)
unfolding receive
receive-IsOrderly e s h o = elim (Bool-cases s.closed) [
  | inl shut ↦ rw (send_progress_closed e s shut) (elim (Bool-cases (is_terminal e.status)) [
    | inl last ↦ rw last (complete_stream-IsOrderly s o.own o.ends)
    | inr more ↦ rw more o
  ])
  | inr live ↦
      let own =
        All-append (λ (f : ProgressEvent). f.id ≡ s.batch_id) s.sent (e ∷ []) o.own (h, tt) in
      let ends = EndsOnce-snoc e s.sent (o.running live) in
      rw (send_progress_open e s live (o.quits live)) (elim (Bool-cases (is_terminal e.status)) [
        | inl last ↦
            rw last (complete_stream-IsOrderly (record s { sent = s.sent ++ e ∷ [] }) own ends)
        | inr more ↦ rw more (record {
          own = own;
          ends = ends;
          running = λ u. All-append IsRunning s.sent (e ∷ []) (o.running u) (more, tt);
          quits = o.quits;
        })
      ])
]

pub receive_emitter :
    (e : ProgressEvent) (s : Stream)
    → ((receive e s).emitter ≡ s.emitter) × ((receive e s).batch_id ≡ s.batch_id)
unfolding receive send_progress next_event complete_stream close_stream
receive_emitter e s = ground arith
