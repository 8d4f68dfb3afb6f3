-- ===== src/Server/Upload/Streams/Reached.antt =====
-- `streamProgress` of upload/upload.controller.ts: the steps keep every stream orderly.
use csv_product_uploader.Prelude.{
  All-mono, ℕ, suc, ◌<◌, true, false, not, ◌==◌, ◌&&◌, List, [], ◌∷◌, ◌++◌, some, String, ◌≡◌, refl,
  sym, ◌∙◌, arith, All, All-append, any, Option-cases, inl, inr,
}
use csv_product_uploader.Server.Entities.{UploadBatch, ProgressEvent}
use csv_product_uploader.Server.Upload.Hub.{
  Stream, Hub, lookup_emitter, register_progress_emitter, receive, close_stream, completes, listens,
  emit_progress, subscribe, initial_event, disconnect, initial_status,
}
use csv_product_uploader.Server.Upload.Streams.{
  IsOrderly, IsOf, IsWell, Reaches, started, opened, emitted, answered, left, EndsOnce,
  receive-IsOrderly, receive_emitter, close_stream-IsOrderly,
}
use csv_product_uploader.Server.Upload.Streams.Moves.{
  deliver-Moves, update_stream-Moves, move-IsWell, delete_emitter-All, lookup_emitter-All,
  unregister_if-IsWell,
}

All-both : {A : Type 0} (P Q : A → Type 0) (l : List A) → All P l → All Q l → All (λ x. P x × Q x) l
All-both P Q [] a b = tt
All-both P Q (x ∷ l) (h, a) (k, b) = ((h, k), All-both P Q l a b)

disconnect-IsWell : (n : ℕ) (id : String) (h : Hub) → IsWell h → IsWell (disconnect n id h)
unfolding disconnect close_stream
disconnect-IsWell n id h w =
    unregister_if-IsWell (any (λ s. s.emitter == n && not s.closed) h.streams) id _ (
      move-IsWell h _
        (update_stream-Moves n close_stream h.streams (
          All-mono IsOrderly _ h.streams
            (λ s o e. record {
              emitter = refl;
              batch_id = refl;
              orderly = close_stream-IsOrderly s;
            })
            w.orderly))
        w)

emit_progress-IsWell :
    (id : String) (e : ProgressEvent) (h : Hub)
    → e.id ≡ id
    → IsWell h
    → IsWell (emit_progress id e h)
unfolding emit_progress
emit_progress-IsWell id e h k w = elim (Option-cases (lookup_emitter id h.progress_emitters)) [
  | inl missing ↦ rw missing w
  | inr (n, found) ↦
      let of =
        lookup_emitter-All (λ (i : String) (m : ℕ). All (IsOf i m) h.streams) id n
          h.progress_emitters found w.emitters in
      rw found (
        unregister_if-IsWell (any (λ s. listens n s && completes e s) h.streams) id _
          (move-IsWell h _ (deliver-Moves n e h.streams (rw k of)) w))
]

initial_status-IsWell :
    (n : ℕ) (id : String) (b : UploadBatch) (h : Hub)
    → b.id ≡ id
    → All (IsOf id n) h.streams
    → IsWell h
    → IsWell (initial_status n id (some b) h)
unfolding initial_status initial_event
initial_status-IsWell n id b h k of w =
    unregister_if-IsWell (any (λ s. s.emitter == n && completes (initial_event b) s) h.streams) id _
      (move-IsWell h _
        (update_stream-Moves n (receive (initial_event b)) h.streams (
          All-mono (IsOf id n) _ h.streams
            (λ s o e. record {
              emitter = (receive_emitter (initial_event b) s).0;
              batch_id = (receive_emitter (initial_event b) s).1;
              orderly = receive-IsOrderly (initial_event b) s (k ∙ sym (o e));
            })
            of))
        w)

subscribe-IsWell : (id : String) (h : Hub) → IsWell h → IsWell (subscribe id h)
unfolding subscribe register_progress_emitter EndsOnce
subscribe-IsWell id h w =
    let n = h.next_emitter in
    let s : Stream = record {
      batch_id = id;
      emitter = n;
      listening = true;
      is_completed = false;
      closed = false;
      sent = [];
    } in
    let both =
      All-both (λ (e : String × ℕ). All (IsOf e.0 e.1) h.streams) (λ e. e.1 < n) h.progress_emitters
        w.emitters w.known in
    record {
      orderly =
          All-append IsOrderly h.streams (s ∷ []) w.orderly
            (record { own = tt; ends = tt; running = λ _. tt; quits = λ _. refl }, tt);
      emitters = (
        All-append (IsOf id n) h.streams (s ∷ [])
            (All-mono (λ (t : Stream). t.emitter < n) (IsOf id n) h.streams
              (λ t l e. absurd (omega arith)) w.taken)
            (λ e. refl, tt),
        delete_emitter-All (λ (e : String × ℕ). All (IsOf e.0 e.1) (h.streams ++ s ∷ [])) id
            h.progress_emitters
            (All-mono (λ (e : String × ℕ). All (IsOf e.0 e.1) h.streams × (e.1 < n))
              (λ e. All (IsOf e.0 e.1) (h.streams ++ s ∷ [])) h.progress_emitters
              (λ e p.
                All-append (IsOf e.0 e.1) h.streams (s ∷ []) p.0
                  (λ q. absurd (omega (arith, p.1)), tt))
              both),
      );
      taken =
          All-append (λ (t : Stream). t.emitter < suc n) h.streams (s ∷ [])
            (All-mono (λ (t : Stream). t.emitter < n) (λ t. t.emitter < suc n) h.streams
              (λ t l. omega arith) w.taken)
            (omega arith, tt);
      known = (
        omega arith,
        delete_emitter-All (λ (e : String × ℕ). e.1 < suc n) id h.progress_emitters
            (All-mono (λ (e : String × ℕ). e.1 < n) (λ e. e.1 < suc n) h.progress_emitters
              (λ e l. omega arith) w.known),
      );
    }

Reaches-IsWell : (h : Hub) → Reaches h → IsWell h
Reaches-IsWell _ started = record { orderly = tt; emitters = tt; taken = tt; known = tt }
Reaches-IsWell _ (opened id h r) = subscribe-IsWell id h (Reaches-IsWell h r)
Reaches-IsWell _ (emitted id e h k r) = emit_progress-IsWell id e h k (Reaches-IsWell h r)
Reaches-IsWell _ (answered n id b h k of r) =
    initial_status-IsWell n id b h k of (Reaches-IsWell h r)
Reaches-IsWell _ (left n id h r) = disconnect-IsWell n id h (Reaches-IsWell h r)

-- In every hub that the steps of the service, of the awaited statuses and of the clients lead to
-- from the empty one, in any order, every stream has sent events of its own batch only, has sent
-- nothing after an event with a last status, and while its observer is not closed has sent no such
-- event and is not completed. Asked of the steps is that an event, or a row, carries the id under
-- which it is sent.
pub Reaches-IsOrderly : (h : Hub) → Reaches h → All IsOrderly h.streams
Reaches-IsOrderly h r = (Reaches-IsWell h r).orderly
