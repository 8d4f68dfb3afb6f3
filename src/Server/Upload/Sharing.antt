-- ===== src/Server/Upload/Sharing.antt =====
-- upload/upload.service.ts and `streamProgress` of upload/upload.controller.ts: the emitters are kept
-- by batch, so that the streams of one batch share a place.
use csv_product_uploader.Prelude.{
  ℕ, ◌<◌, Bool, true, false, not, ◌==◌, ◌&&◌, List, [], ◌∷◌, ◌++◌, none, String, str_eq, eq_refl,
  eq_iff, ==_iff, ◌≡◌, refl, arith, All, any, ap,
}
use csv_product_uploader.Server.Entities.{ProgressEvent}
use csv_product_uploader.Server.Upload.Hub.{
  Stream, Hub, lookup_emitter, delete_emitter, register_progress_emitter,
  unregister_progress_emitter, unregister_if, receive, deliver, completes, listens, emit_progress,
  subscribe, disconnect,
}

lookup_emitter-delete_emitter :
    (id : String) (es : List (String × ℕ)) → lookup_emitter id (delete_emitter id es) ≡ none
unfolding lookup_emitter delete_emitter
lookup_emitter-delete_emitter id [] = refl
lookup_emitter-delete_emitter id ((k, n) ∷ es) = ground (arith, lookup_emitter-delete_emitter id es)

lookup_emitter-delete_other :
    (id key : String) (es : List (String × ℕ))
    → str_eq id key ≡ false
    → lookup_emitter key (delete_emitter id es) ≡ lookup_emitter key es
unfolding lookup_emitter delete_emitter
lookup_emitter-delete_other id key [] h = refl
lookup_emitter-delete_other id key ((k, n) ∷ es) h =
    ground
      (arith, eq_iff k id, eq_iff k key, eq_iff id key, lookup_emitter-delete_other id key es h)

-- Once the client of an open stream of a batch leaves, an event of that batch changes nothing: the
-- other streams of the batch, which are still open, do not get it.
pub disconnect-silences :
    (n : ℕ) (id : String) (e : ProgressEvent) (h : Hub)
    → any (λ s. s.emitter == n && not s.closed) h.streams ≡ true
    → emit_progress id e (disconnect n id h) ≡ disconnect n id h
unfolding emit_progress disconnect unregister_if unregister_progress_emitter
disconnect-silences n id e h live =
    rw (live, lookup_emitter-delete_emitter id h.progress_emitters) refl

pub deliver-none :
    (n : ℕ) (e : ProgressEvent) (ss : List Stream)
    → All (λ s. s.emitter < n) ss
    → deliver n e ss ≡ ss
unfolding deliver
deliver-none n e [] a = refl
deliver-none n e (s ∷ ss) (h, a) = ground (arith, ==_iff s.emitter n, deliver-none n e ss a)

pub deliver-append :
    (n : ℕ) (e : ProgressEvent) (ss ts : List Stream)
    → deliver n e (ss ++ ts) ≡ deliver n e ss ++ deliver n e ts
unfolding deliver
deliver-append n e [] ts = refl
deliver-append n e (s ∷ ss) ts = rw (deliver-append n e ss ts) refl

-- The stream that a client opens.
abbrev pub opened_stream : String → ℕ → Stream
opened_stream id n = record {
  batch_id = id;
  emitter = n;
  listening = true;
  is_completed = false;
  closed = false;
  sent = [];
}

pub unregister_if-streams :
    (b : Bool) (id : String) (h : Hub) → (unregister_if b id h).streams ≡ h.streams
unfolding unregister_if unregister_progress_emitter
unregister_if-streams true id h = refl
unregister_if-streams false id h = refl

deliver-own :
    (id : String) (n : ℕ) (e : ProgressEvent)
    → deliver n e (opened_stream id n ∷ []) ≡ receive e (opened_stream id n) ∷ []
unfolding deliver
deliver-own id n e = ground (arith, ==_iff n n)

-- The next event of a batch after a client opens a stream of it goes to that stream, which sends it
-- on, and to no other: the streams that the batch had do not get it. Asked is that the service
-- never gave out the emitter's number before.
pub subscribe-replaces :
    (id : String) (e : ProgressEvent) (h : Hub)
    → All (λ s. s.emitter < h.next_emitter) h.streams
    → (emit_progress id e (subscribe id h)).streams
      ≡ h.streams ++ receive e (opened_stream id h.next_emitter) ∷ []
unfolding emit_progress subscribe register_progress_emitter lookup_emitter
subscribe-replaces id e h a =
    let n = h.next_emitter in
    let s = opened_stream id n in
    rw
      (
        eq_refl id,
        unregister_if-streams (any (λ s. listens n s && completes e s) (h.streams ++ s ∷ [])) id _,
        deliver-append n e h.streams (s ∷ []),
        deliver-none n e h.streams a,
      )
      (ap (λ (ts : List Stream). h.streams ++ ts) (deliver-own id n e))
