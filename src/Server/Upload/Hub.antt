-- ===== src/Server/Upload/Hub.antt =====
-- The progress emitters of upload.service.ts and the event streams of `streamProgress` in
-- upload.controller.ts. Each stream registers one emitter of its own, whose number names both.
use csv_product_uploader.Prelude.{
  ℕ, suc, ◌==◌, Bool, true, false, ◌&&◌, not, if◌then◌else◌, List, [], ◌∷◌, ◌++◌, Option, none,
  some, String, str_eq, any,
}
use csv_product_uploader.Server.Entities.{UploadBatch, is_terminal, ProgressEvent}
use csv_product_uploader.Server.Percentage.{percentage}

pub record Stream : Type 0 where
  pub batch_id : String
  pub emitter : ℕ
  -- The handler is attached to the emitter.
  pub listening : Bool
  -- `isCompleted`
  pub is_completed : Bool
  -- The observer has completed or failed; what is sent later goes nowhere.
  pub closed : Bool
  pub sent : List ProgressEvent

pub record Hub : Type 0 where
  -- `progressEmitters`
  pub progress_emitters : List (String × ℕ)
  pub streams : List Stream
  pub next_emitter : ℕ

unfoldable pub lookup_emitter : String → List (String × ℕ) → Option ℕ
lookup_emitter id [] = none
lookup_emitter id ((k, n) ∷ es) = if str_eq k id then some n else lookup_emitter id es

unfoldable pub delete_emitter : String → List (String × ℕ) → List (String × ℕ)
delete_emitter id [] = []
delete_emitter id ((k, n) ∷ es) =
    if str_eq k id then delete_emitter id es else (k, n) ∷ delete_emitter id es

-- `registerProgressEmitter`: a new emitter, in place of the one that the batch had.
unfoldable pub register_progress_emitter : String → Hub → Hub
register_progress_emitter id h = record h {
  progress_emitters = (id, h.next_emitter) ∷ delete_emitter id h.progress_emitters;
  next_emitter = suc h.next_emitter;
}

unfoldable pub unregister_progress_emitter : String → Hub → Hub
unregister_progress_emitter id h = record h {
  progress_emitters = delete_emitter id h.progress_emitters;
}

unfoldable pub update_stream : ℕ → (Stream → Stream) → List Stream → List Stream
update_stream n f [] = []
update_stream n f (s ∷ ss) = (if s.emitter == n then f s else s) ∷ update_stream n f ss

-- `observer.next`, unless the observer is closed.
unfoldable pub next_event : ProgressEvent → Stream → Stream
next_event e s = if s.closed then s else record s { sent = s.sent ++ e ∷ [] }

-- `sendProgress`
unfoldable pub send_progress : ProgressEvent → Stream → Stream
send_progress e s = if s.is_completed then s else next_event e s

-- Closing the observer runs the function that `new Observable` was given back: the handler is
-- detached.
unfoldable pub close_stream : Stream → Stream
close_stream s = record s { closed = true; listening = false }

-- `completeStream`, as far as the stream goes.
unfoldable pub complete_stream : Stream → Stream
complete_stream s = record (close_stream s) { is_completed = true }

-- What `handler` and the initial status do: send, and complete after a last status.
unfoldable pub receive : ProgressEvent → Stream → Stream
receive e s =
    if is_terminal e.status then complete_stream (send_progress e s) else send_progress e s

abbrev pub listens : ℕ → Stream → Bool
listens n s = s.emitter == n && s.listening

-- `emitter.emit('progress', data)` calls the handlers that are attached.
unfoldable pub deliver : ℕ → ProgressEvent → List Stream → List Stream
deliver n e [] = []
deliver n e (s ∷ ss) = (if listens n s then receive e s else s) ∷ deliver n e ss

-- Whether `completeStream` takes the batch's emitter out of the service.
abbrev pub completes : ProgressEvent → Stream → Bool
completes e s = is_terminal e.status && not s.is_completed

unfoldable pub unregister_if : Bool → String → Hub → Hub
unregister_if true id h = unregister_progress_emitter id h
unregister_if false id h = h

abbrev pub emit_to : Option ℕ → String → ProgressEvent → Hub → Hub
emit_to none id e h = h
emit_to (some n) id e h =
    unregister_if (any (λ s. listens n s && completes e s) h.streams) id
      (record h { streams = deliver n e h.streams })

-- `emitProgress`
unfoldable pub emit_progress : String → ProgressEvent → Hub → Hub
emit_progress id e h = emit_to (lookup_emitter id h.progress_emitters) id e h

-- `streamProgress`: the emitter is registered and the handler attached while the status is awaited.
unfoldable pub subscribe : String → Hub → Hub
subscribe id h = register_progress_emitter id (record h {
  streams =
      h.streams
      ++ record {
        batch_id = id;
        emitter = h.next_emitter;
        listening = true;
        is_completed = false;
        closed = false;
        sent = [];
      }
        ∷ [];
})

-- The payload of the initial status.
unfoldable pub initial_event : UploadBatch → ProgressEvent
initial_event b = record {
  id = b.id;
  status = b.status;
  total_rows = b.total_rows;
  processed_rows = b.processed_rows;
  percentage = percentage b.processed_rows b.total_rows;
  error_message = b.error_message;
  updated_at = b.updated_at;
}

-- The observer of stream `n` is closed, which happens once: the emitter of its batch is taken out too.
unfoldable pub disconnect : ℕ → String → Hub → Hub
disconnect n id h =
    unregister_if (any (λ s. s.emitter == n && not s.closed) h.streams) id
      (record h { streams = update_stream n close_stream h.streams })

-- The awaited status of stream `n`, which is about batch `id`: no row, or an error, fails the
-- observer.
unfoldable pub initial_status : ℕ → String → Option UploadBatch → Hub → Hub
initial_status n id none h = disconnect n id h
initial_status n id (some b) h =
    unregister_if (any (λ s. s.emitter == n && completes (initial_event b) s) h.streams) id
      (record h { streams = update_stream n (receive (initial_event b)) h.streams })

abbrev pub empty_hub : Hub
empty_hub = record { progress_emitters = []; streams = []; next_emitter = 0 }
