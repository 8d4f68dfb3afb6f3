-- ===== src/Client/Batches.antt =====
-- hooks/useBatchesData.ts: the list of batches, which is polled while one of them is being worked on.
-- A state is what is kept between two events, once the effects of the last one have run.
use csv_product_uploader.Prelude.{
  Bool, true, false, ◌&&◌, if◌then◌else◌, List, [], any, Option, none, some, String, ◌≡◌, refl,
  arith, sym, ◌∙◌, ◌↔◌, ◌⊎◌, inl, inr, Bool-cases, ◌∷◌,
}
use csv_product_uploader.Server.Entities.{
  UploadBatch, BatchStatus, pending, processing, completed, failed,
}

pub record BatchesData : Type 0 where
  pub batches : List UploadBatch
  pub loading : Bool
  pub error : Option String
  -- The interval in `intervalRef` is set.
  pub polling : Bool

abbrev pub is_active : BatchStatus → Bool
is_active pending = true
is_active processing = true
is_active _ = false

-- `hasProcessing`
unfoldable pub has_processing : List UploadBatch → Bool
has_processing bs = any (λ b. is_active b.status) bs

-- The effect on a change of the batches.
unfoldable pub poll : Bool → BatchesData → BatchesData
poll is_authenticated d = record d { polling = has_processing d.batches && is_authenticated }

-- `load`, up to its request; without a token there is none.
unfoldable pub load_batches : Bool → BatchesData → BatchesData
load_batches is_authenticated d =
    if is_authenticated
    then record d { loading = true; error = none }
    else poll is_authenticated (record d { batches = [] })

pub data BatchesEvent : Type 0 where
  -- The first effect, a tick of the interval, or `refresh`.
  mounted ticked refreshed : BatchesEvent
  batches_loaded : List UploadBatch → BatchesEvent
  -- `load` fails; the message is that of an `Error`, or missing.
  loading_failed : Option String → BatchesEvent

abbrev pub load_message : Option String → String
load_message none = "Failed to load batches"
load_message (some m) = m

unfoldable pub batches_step : Bool → BatchesEvent → BatchesData → BatchesData
batches_step is_authenticated mounted d =
    if is_authenticated then load_batches is_authenticated d else d
batches_step is_authenticated ticked d = if d.polling then load_batches is_authenticated d else d
batches_step is_authenticated refreshed d = load_batches is_authenticated d
batches_step is_authenticated (batches_loaded bs) d =
    poll is_authenticated (record d { batches = bs; loading = false })
batches_step is_authenticated (loading_failed m) d = record d {
  error = some (load_message m);
  loading = false;
}

abbrev pub no_batches : BatchesData
no_batches = record { batches = []; loading = false; error = none; polling = false }

pub data ReachesBatches (is_authenticated : Bool) : BatchesData → Type 0 where
  started : ReachesBatches is_authenticated no_batches
  stepped :
      (e : BatchesEvent) (d : BatchesData)
      → ReachesBatches is_authenticated d
      → ReachesBatches is_authenticated (batches_step is_authenticated e d)

step-polling :
    (is_authenticated : Bool) (e : BatchesEvent) (d : BatchesData)
    → d.polling ≡ (has_processing d.batches && is_authenticated)
    → (batches_step is_authenticated e d).polling
      ≡ (has_processing (batches_step is_authenticated e d).batches && is_authenticated)
unfolding batches_step load_batches poll
step-polling true mounted d h = h
step-polling false mounted d h = h
step-polling true ticked d h = ground arith
step-polling false ticked d h = ground arith
step-polling true refreshed d h = h
step-polling false refreshed d h = refl
step-polling a (batches_loaded bs) d h = refl
step-polling a (loading_failed m) d h = h

has_processing-polling :
    (is_authenticated : Bool) (d : BatchesData)
    → ReachesBatches is_authenticated d
    → d.polling ≡ (has_processing d.batches && is_authenticated)
unfolding has_processing
has_processing-polling a _ started = refl
has_processing-polling a _ (stepped e d r) = step-polling a e d (has_processing-polling a d r)

-- The server works on some listed batch, or will.
pub data HasWork : List UploadBatch → Type 0 where
  first_waits : {b : UploadBatch} {bs : List UploadBatch} → b.status ≡ pending → HasWork (b ∷ bs)
  first_runs : {b : UploadBatch} {bs : List UploadBatch} → b.status ≡ processing → HasWork (b ∷ bs)
  later_works : {b : UploadBatch} {bs : List UploadBatch} → HasWork bs → HasWork (b ∷ bs)

is_active_iff : (s : BatchStatus) → is_active s ≡ true → (s ≡ pending) ⊎ (s ≡ processing)
is_active_iff pending h = inl refl
is_active_iff processing h = inr refl
is_active_iff completed h = absurd (ground arith)
is_active_iff failed h = absurd (ground arith)

has_processing-HasWork : (bs : List UploadBatch) → has_processing bs ≡ true → HasWork bs
unfolding has_processing
has_processing-HasWork [] h = absurd (ground arith)
has_processing-HasWork (b ∷ bs) h = elim (Bool-cases (is_active b.status)) [
  | inl active ↦ elim (is_active_iff b.status active) [
    | inl w ↦ first_waits w
    | inr r ↦ first_runs r
  ]
  | inr idle ↦ later_works (has_processing-HasWork bs (ground arith))
]

HasWork-has_processing : {bs : List UploadBatch} → HasWork bs → has_processing bs ≡ true
unfolding has_processing
HasWork-has_processing (first_waits h) = rw h refl
HasWork-has_processing (first_runs h) = rw h refl
HasWork-has_processing (later_works w) = ground (arith, HasWork-has_processing w)

-- In every state that the events lead to, the list is polled exactly while the user has a token and
-- some listed batch is pending or being processed.
pub ReachesBatches-polling :
    (is_authenticated : Bool) (d : BatchesData)
    → ReachesBatches is_authenticated d
    → (d.polling ≡ true) ↔ ((is_authenticated ≡ true) × HasWork d.batches)
ReachesBatches-polling a d r =
    let e = has_processing-polling a d r in
    (
      λ h.
          let both : (has_processing d.batches && a) ≡ true = sym e ∙ h in
          (ground arith, has_processing-HasWork d.batches (ground arith)),
      λ (t, w). ground (arith, HasWork-has_processing w),
    )
