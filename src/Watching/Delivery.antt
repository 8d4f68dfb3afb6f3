-- ===== src/Watching/Delivery.antt =====
-- The events of one batch, one after the other, through the emitter of its stream.
use mathlib.Core.List.{append_assoc}
use csv_product_uploader.Prelude.{
  ℕ, ◌<◌, ◌==◌, ==_iff, true, false, ◌&&◌, List, [], ◌∷◌, ◌++◌, some, String, eq_refl, ◌≡◌, refl,
  ap, ◌∙◌, arith, All, any,
}
use csv_product_uploader.Server.Entities.{UploadBatch, ProgressEvent, is_terminal}
use csv_product_uploader.Server.Upload.Hub.{
  Stream, Hub, lookup_emitter, register_progress_emitter, unregister_if, update_stream, receive,
  send_progress, next_event, complete_stream, close_stream, deliver, listens, completes,
  emit_progress, subscribe, initial_event, initial_status,
}
use csv_product_uploader.Server.Upload.Sharing.{deliver-none, deliver-append, unregister_if-streams}

-- The calls of `emitProgress` for one batch, in order.
unfoldable pub emit_all : String → List ProgressEvent → Hub → Hub
emit_all id [] h = h
emit_all id (e ∷ es) h = emit_all id es (emit_progress id e h)

-- A stream that has sent some events, and is open.
abbrev pub open_stream : String → ℕ → List ProgressEvent → Stream
open_stream id n sent = record {
  batch_id = id;
  emitter = n;
  listening = true;
  is_completed = false;
  closed = false;
  sent = sent;
}

-- A stream that has sent its last event.
abbrev pub ended_stream : String → ℕ → List ProgressEvent → Stream
ended_stream id n sent = record {
  batch_id = id;
  emitter = n;
  listening = false;
  is_completed = true;
  closed = true;
  sent = sent;
}

abbrev pub IsRunning : ProgressEvent → Type 0
IsRunning e = is_terminal e.status ≡ false

-- The last stream of a hub is that of emitter `n`, which is registered for the batch.
pub record Serves (id : String) (n : ℕ) (ss : List Stream) (sent : List ProgressEvent) (h : Hub)
    : Type 0 where
  pub streams : h.streams ≡ ss ++ open_stream id n sent ∷ []
  pub registered : lookup_emitter id h.progress_emitters ≡ some n

module _ (id : String) (n : ℕ) (ss : List Stream) (older : All (λ s. s.emitter < n) ss) where
  deliver-last :
      (e : ProgressEvent) (s : Stream)
      → s.emitter ≡ n
      → s.listening ≡ true
      → deliver n e (ss ++ s ∷ []) ≡ ss ++ receive e s ∷ []
  unfolding deliver
  deliver-last e s h l =
      rw (deliver-append n e ss (s ∷ []), deliver-none n e ss older)
        (rw (h, l) (ground (arith, ==_iff n n)))

  any_running :
      (e : ProgressEvent) (ts : List Stream)
      → IsRunning e
      → any (λ s. listens n s && completes e s) ts ≡ false
  any_running e [] h = refl
  any_running e (t ∷ ts) h = ground (arith, any_running e ts h)

  receive_running :
      (e : ProgressEvent) (sent : List ProgressEvent)
      → IsRunning e
      → receive e (open_stream id n sent) ≡ open_stream id n (sent ++ e ∷ [])
  unfolding receive send_progress next_event
  receive_running e sent h = rw h refl

  receive_last :
      (e : ProgressEvent) (sent : List ProgressEvent)
      → is_terminal e.status ≡ true
      → receive e (open_stream id n sent) ≡ ended_stream id n (sent ++ e ∷ [])
  unfolding receive send_progress next_event complete_stream close_stream
  receive_last e sent h = rw h refl

  emit_running :
      (e : ProgressEvent) (sent : List ProgressEvent) (h : Hub)
      → IsRunning e
      → Serves id n ss sent h
      → Serves id n ss (sent ++ e ∷ []) (emit_progress id e h)
  unfolding emit_progress unregister_if
  emit_running e sent h r s =
      rw (s.registered, any_running e h.streams r)
        (record {
          streams =
              ap (deliver n e) s.streams
              ∙ (deliver-last e (open_stream id n sent) refl refl
                  ∙ ap (λ (t : Stream). ss ++ t ∷ []) (receive_running e sent r));
          registered = s.registered;
        })

  emit_last :
      (e : ProgressEvent) (sent : List ProgressEvent) (h : Hub)
      → is_terminal e.status ≡ true
      → Serves id n ss sent h
      → (emit_progress id e h).streams ≡ ss ++ ended_stream id n (sent ++ e ∷ []) ∷ []
  unfolding emit_progress
  emit_last e sent h r s =
      rw
        (
          s.registered,
          unregister_if-streams (any (λ s. listens n s && completes e s) h.streams) id _,
        )
        (ap (deliver n e) s.streams
          ∙ (deliver-last e (open_stream id n sent) refl refl
              ∙ ap (λ (t : Stream). ss ++ t ∷ []) (receive_last e sent r)))

  -- Running events, and then one with a last status.
  emit_all-streams :
      (es : List ProgressEvent) (e : ProgressEvent) (sent : List ProgressEvent) (h : Hub)
      → All IsRunning es
      → is_terminal e.status ≡ true
      → Serves id n ss sent h
      → (emit_all id (es ++ e ∷ []) h).streams
        ≡ ss ++ ended_stream id n (sent ++ (es ++ e ∷ [])) ∷ []
  unfolding emit_all
  emit_all-streams [] e sent h a l s = emit_last e sent h l s
  emit_all-streams (f ∷ es) e sent h (r, a) l s =
      emit_all-streams es e (sent ++ f ∷ []) (emit_progress id f h) a l (emit_running f sent h r s)
      ∙ ap (λ (l : List ProgressEvent). ss ++ ended_stream id n l ∷ [])
          (append_assoc sent (f ∷ []) (es ++ e ∷ []))

  update_stream-none :
      (f : Stream → Stream) (ts : List Stream)
      → All (λ s. s.emitter < n) ts
      → update_stream n f ts ≡ ts
  unfolding update_stream
  update_stream-none f [] a = refl
  update_stream-none f (t ∷ ts) (h, a) =
      ground (arith, ==_iff t.emitter n, update_stream-none f ts a)

  update_stream-append :
      (f : Stream → Stream) (ts us : List Stream)
      → update_stream n f (ts ++ us) ≡ update_stream n f ts ++ update_stream n f us
  unfolding update_stream
  update_stream-append f [] us = refl
  update_stream-append f (t ∷ ts) us = rw (update_stream-append f ts us) refl

  update_stream-last :
      (f : Stream → Stream) (s : Stream)
      → s.emitter ≡ n
      → update_stream n f (ss ++ s ∷ []) ≡ ss ++ f s ∷ []
  unfolding update_stream
  update_stream-last f s h =
      rw (update_stream-append f ss (s ∷ []), update_stream-none f ss older)
        (rw h (ground (arith, ==_iff n n)))

  any_running_status :
      (e : ProgressEvent) (ts : List Stream)
      → IsRunning e
      → any (λ s. s.emitter == n && completes e s) ts ≡ false
  any_running_status e [] h = refl
  any_running_status e (t ∷ ts) h = ground (arith, any_running_status e ts h)

  initial_status-Serves :
      (b : UploadBatch) (sent : List ProgressEvent) (h : Hub)
      → is_terminal b.status ≡ false
      → Serves id n ss sent h
      → Serves id n ss (sent ++ initial_event b ∷ []) (initial_status n id (some b) h)
  unfolding initial_status unregister_if initial_event
  initial_status-Serves b sent h r s =
      rw (any_running_status (initial_event b) h.streams r) (record {
        streams =
            ap (update_stream n (receive (initial_event b))) s.streams
            ∙ (update_stream-last (receive (initial_event b)) (open_stream id n sent) refl
                ∙ ap (λ (t : Stream). ss ++ t ∷ []) (receive_running (initial_event b) sent r));
        registered = s.registered;
      })

subscribe-Serves : (id : String) (h : Hub) → Serves id h.next_emitter h.streams [] (subscribe id h)
unfolding subscribe register_progress_emitter lookup_emitter
subscribe-Serves id h = record { streams = refl; registered = rw (eq_refl id) refl }

-- A client that opens a stream, is told the status of a batch that is not settled, and gets the events
-- of the batch: the stream sends them all, in order, and then ends; the other streams get none.
pub watched-streams :
    (id : String) (b : UploadBatch) (es : List ProgressEvent) (e : ProgressEvent) (h : Hub)
    → All (λ s. s.emitter < h.next_emitter) h.streams
    → is_terminal b.status ≡ false
    → All IsRunning es
    → is_terminal e.status ≡ true
    → (emit_all id
        (es ++ e ∷ [])
        (initial_status h.next_emitter id (some b) (subscribe id h))).streams
      ≡ h.streams ++ ended_stream id h.next_emitter (initial_event b ∷ (es ++ e ∷ [])) ∷ []
watched-streams id b es e h older r a l =
    emit_all-streams id h.next_emitter h.streams older es e (initial_event b ∷ []) _ a l
      (initial_status-Serves id h.next_emitter h.streams older b [] _ r (subscribe-Serves id h))
