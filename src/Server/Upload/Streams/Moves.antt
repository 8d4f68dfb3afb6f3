-- ===== src/Server/Upload/Streams/Moves.antt =====
-- `streamProgress` of upload/upload.controller.ts: what a step keeps of the streams.
use csv_product_uploader.Prelude.{
  All-mono, ℕ, ◌<◌, Bool, true, false, ◌==◌, List, [], ◌∷◌, some, String, str_eq, eq_iff, ==_iff,
  ◌∙◌, ◌≡◌, refl, arith, All, Bool-cases, inl, inr, subst, sym,
}
use csv_product_uploader.Server.Entities.{ProgressEvent}
use csv_product_uploader.Server.Upload.Hub.{
  Stream, Hub, lookup_emitter, delete_emitter, unregister_progress_emitter, update_stream, listens,
  deliver, unregister_if,
}
use csv_product_uploader.Server.Upload.Streams.{
  IsOrderly, IsOf, IsWell, receive-IsOrderly, receive_emitter,
}

-- What a step does to the streams: each keeps its emitter and its batch, and stays orderly.
pub record Keeps (s t : Stream) : Type 0 where
  pub emitter : t.emitter ≡ s.emitter
  pub batch_id : t.batch_id ≡ s.batch_id
  pub orderly : IsOrderly s → IsOrderly t

-- Two lists of streams, stream by stream.
unfoldable pub Moves : List Stream → List Stream → Type 0
Moves [] [] = Unit
Moves (s ∷ ss) (t ∷ ts) = Keeps s t × Moves ss ts
Moves [] (t ∷ ts) = ⊥
Moves (s ∷ ss) [] = ⊥

Keeps-refl : (s : Stream) → Keeps s s
Keeps-refl s = record { emitter = refl; batch_id = refl; orderly = λ o. o }

sound : (n : ℕ) (s : Stream) → listens n s ≡ true → s.emitter ≡ n
sound n s l = ground (arith, ==_iff s.emitter n)

pub deliver-Moves :
    (n : ℕ) (e : ProgressEvent) (ss : List Stream)
    → All (IsOf e.id n) ss
    → Moves ss (deliver n e ss)
unfolding deliver Moves
deliver-Moves n e [] a = tt
deliver-Moves n e (s ∷ ss) (h, a) = elim (Bool-cases (listens n s)) [
  | inl l ↦ rw l (
    record {
      emitter = (receive_emitter e s).0;
      batch_id = (receive_emitter e s).1;
      orderly = receive-IsOrderly e s (sym (h (sound n s l)));
    },
    deliver-Moves n e ss a,
  )
  | inr l ↦ rw l (Keeps-refl s, deliver-Moves n e ss a)
]

pub update_stream-Moves :
    (n : ℕ) (f : Stream → Stream) (ss : List Stream)
    → All (λ s. s.emitter ≡ n → Keeps s (f s)) ss
    → Moves ss (update_stream n f ss)
unfolding update_stream Moves
update_stream-Moves n f [] a = tt
update_stream-Moves n f (s ∷ ss) (h, a) = elim (Bool-cases (s.emitter == n)) [
  | inl same ↦ rw same (h (ground (arith, ==_iff s.emitter n)), update_stream-Moves n f ss a)
  | inr apart ↦ rw apart (Keeps-refl s, update_stream-Moves n f ss a)
]

pub Moves-All :
    (P : Stream → Type 0) (ss ts : List Stream)
    → ((s t : Stream) → Keeps s t → P s → P t)
    → Moves ss ts
    → All P ss
    → All P ts
unfolding Moves
Moves-All P [] [] k m a = tt
Moves-All P (s ∷ ss) (t ∷ ts) k (m, ms) (h, a) = (k s t m h, Moves-All P ss ts k ms a)
Moves-All P [] (t ∷ ts) k m a = absurd m
Moves-All P (s ∷ ss) [] k m a = tt

IsOf-Moves : (id : String) (n : ℕ) (s t : Stream) → Keeps s t → IsOf id n s → IsOf id n t
IsOf-Moves id n s t k h e = k.batch_id ∙ h (sym k.emitter ∙ e)

pub move-IsWell :
    (h : Hub) (ss : List Stream)
    → Moves h.streams ss
    → IsWell h
    → IsWell (record h { streams = ss })
move-IsWell h ss m w = record {
  orderly = Moves-All IsOrderly h.streams ss (λ s t k. k.orderly) m w.orderly;
  emitters =
      All-mono (λ (e : String × ℕ). All (IsOf e.0 e.1) h.streams) (λ e. All (IsOf e.0 e.1) ss)
        h.progress_emitters (λ e. Moves-All (IsOf e.0 e.1) h.streams ss (IsOf-Moves e.0 e.1) m)
        w.emitters;
  taken =
      Moves-All (λ s. s.emitter < h.next_emitter) h.streams ss
        (λ s t k. subst (λ (n : ℕ). n < h.next_emitter) (sym k.emitter)) m w.taken;
  known = w.known;
}

pub delete_emitter-All :
    (P : String × ℕ → Type 0) (id : String) (es : List (String × ℕ))
    → All P es
    → All P (delete_emitter id es)
unfolding delete_emitter
delete_emitter-All P id [] a = tt
delete_emitter-All P id ((k, n) ∷ es) (h, a) = elim (Bool-cases (str_eq k id)) [
  | inl same ↦ rw same (delete_emitter-All P id es a)
  | inr apart ↦ rw apart (h, delete_emitter-All P id es a)
]

pub lookup_emitter-All :
    (P : String → ℕ → Type 0) (id : String) (n : ℕ) (es : List (String × ℕ))
    → lookup_emitter id es ≡ some n
    → All (λ e. P e.0 e.1) es
    → P id n
unfolding lookup_emitter
lookup_emitter-All P id n [] e a = absurd (ground arith)
lookup_emitter-All P id n ((k, m) ∷ es) e (h, a) = elim (Bool-cases (str_eq k id)) [
  | inl same ↦
      let key : k ≡ id = ground (arith, eq_iff k id) in
      let value : m ≡ n = ground arith in subst (λ x. P x n) key (subst (λ x. P k x) value h)
  | inr apart ↦ lookup_emitter-All P id n es (ground arith) a
]

pub unregister_if-IsWell :
    (b : Bool) (id : String) (h : Hub) → IsWell h → IsWell (unregister_if b id h)
unfolding unregister_if unregister_progress_emitter
unregister_if-IsWell true id h w = record {
  orderly = w.orderly;
  emitters =
      delete_emitter-All (λ (e : String × ℕ). All (IsOf e.0 e.1) h.streams) id h.progress_emitters
        w.emitters;
  taken = w.taken;
  known =
      delete_emitter-All (λ (e : String × ℕ). e.1 < h.next_emitter) id h.progress_emitters w.known;
}
unregister_if-IsWell false id h w = w
