-- ===== src/Server/World.antt =====
-- What the server's code acts on: the database's tables, the upload folder, the queue, the clock, and
-- the state of its singletons. Each call that leaves the process takes the next reply of a script,
-- which says whether the call throws and how long it takes; without a reply it succeeds at once.
pub mod Frames
use csv_product_uploader.Prelude.{
  arith, ap, ℕ, ◌+◌, List, [], ◌∷◌, Option, none, some, String, All, ◌≡◌, refl,
}
use csv_product_uploader.Js.Number.{Number}
use csv_product_uploader.Js.Text.{Text}
use csv_product_uploader.Server.Entities.{UploadBatch, ExchangeRate, ProgressEvent}
use csv_product_uploader.Server.Csv.Rows.{CsvRow, ProcessedRow}

-- What is thrown: an `Error` with its message, or any other value.
pub data Thrown : Type 0 where
  error : String → Thrown
  other : Thrown

pub record Reply : Type 0 where
  pub fault : Option Thrown
  pub elapsed : ℕ

-- What csv-parser makes of a file: its rows, or an error of the parser.
pub data FileContent : Type 0 where
  parsed : List CsvRow → FileContent
  malformed : Thrown → FileContent

-- What the currency API answers: no response, a response that is not ok, a body that is no JSON or is
-- `null`, of which no field can be read, or any other body, with its table `usd`, if it has one.
-- The values of the table are numbers, as the API documents; the code keeps whatever stands there.
pub data ApiReply : Type 0 where
  unreachable not_ok null_body : ApiReply
  body : Option (List (Text × Number)) → ApiReply

-- A job of the queue: batchId, filePath, userId.
pub record CsvJob : Type 0 where
  pub batch_id : String
  pub file_path : String
  pub user_id : Option String

pub record World : Type 0 where
  pub batches : List UploadBatch
  pub products : List ProcessedRow
  pub rates : List ExchangeRate
  pub files : List (String × FileContent)
  pub queue : List CsvJob
  -- The service's cache of rates and its time stamp.
  pub cached_rates : Option (List (Text × Number))
  pub cache_timestamp : ℕ
  -- The calls of `UploadService.emitProgress` and of `job.progress`, oldest first.
  pub emitted : List ProgressEvent
  pub job_progress : List Number
  pub script : List Reply
  pub api : List ApiReply
  pub now : ℕ
  -- What a number reads as once it was stored in a column of the type `decimal(18, 6)`.
  pub decimal : Number → Number

-- `crashed`: an error event that nobody listens to ends the process.
pub data Result {ℓ} (A : Type ℓ) : Type ℓ where
  ok : A → Result A
  err : Thrown → Result A
  crashed : Result A

abbrev pub M : Type 0 → Type 0
M A = World → Result A × World

abbrev pub after {κ} :
    {A : Type 0} {B : Type κ} → Result A × World → (A → World → Result B × World) → Result B × World
after (ok a, w) k = k a w
after (err e, w) k = (err e, w)
after (crashed, w) k = (crashed, w)

pub after-ok :
    {A B : Type 0} (r : Result A × World) (k : A → World → Result B × World) {a : A}
    → r.0 ≡ ok a
    → after r k ≡ k a r.1
after-ok (ok b, w) k h = ground arith
after-ok (err e, w) k h = cc
after-ok (crashed, w) k h = cc

infixl 5 ◌>>=◌ ◌>>◌
abbrev pub ◌>>=◌ : {A B : Type 0} → M A → (A → M B) → M B
◌>>=◌ m k w = after (m w) k

abbrev pub ◌>>◌ : {A B : Type 0} → M A → M B → M B
m >> k = m >>= λ _. k

abbrev pub return : {A : Type 0} → A → M A
return a w = (ok a, w)

abbrev pub throw : {A : Type 0} → Thrown → M A
throw e w = (err e, w)

-- An error event that nobody listens to.
abbrev pub unhandled : {A : Type 0} → Result A × World → Result A × World
unhandled (err e, w) = (crashed, w)
unhandled (ok a, w) = (ok a, w)
unhandled (crashed, w) = (crashed, w)

abbrev pub rescue :
    {A : Type 0} → Result A × World → (Thrown → World → Result A × World) → Result A × World
rescue (err e, w) h = h e w
rescue r h = r

pub rescue-ok :
    {A : Type 0} (r : Result A × World) (h : Thrown → World → Result A × World) {a : A}
    → r.0 ≡ ok a
    → rescue r h ≡ r
rescue-ok (ok b, w) h e = refl
rescue-ok (err t, w) h e = cc
rescue-ok (crashed, w) h e = refl

-- `try { … } catch (error) { … }`; a crash is not caught.
abbrev pub try : {A : Type 0} → M A → (Thrown → M A) → M A
try m h w = rescue (m w) h

-- A synchronous change of the state.
abbrev pub modify : (World → World) → M (Unit {0})
modify f w = (ok tt, f w)

abbrev pub fault_of : List Reply → Option Thrown
fault_of [] = none
fault_of (r ∷ rs) = r.fault

abbrev pub later_replies : List Reply → List Reply
later_replies [] = []
later_replies (r ∷ rs) = rs

abbrev pub elapsed_of : List Reply → ℕ
elapsed_of [] = 0
elapsed_of (r ∷ rs) = r.elapsed

-- The world once the next reply is in.
abbrev pub settle : World → World
settle w = record w { script = later_replies w.script; now = w.now + elapsed_of w.script }

abbrev pub answered : Option Thrown → (World → World) → World → Result (Unit {0}) × World
answered none f w = (ok tt, f w)
answered (some e) f w = (err e, w)

-- A call that leaves the process, with its effect; a call that throws has no effect.
unfoldable pub call : (World → World) → M (Unit {0})
call f w = answered (fault_of w.script) f (settle w)

-- No call throws.
abbrev pub IsQuiet : List Reply → Type 0
IsQuiet = All (λ r. r.fault ≡ none)

pub fault_of-none : (s : List Reply) → IsQuiet s → fault_of s ≡ none
fault_of-none [] q = refl
fault_of-none (r ∷ rs) q = q.0

pub later_replies-IsQuiet : (s : List Reply) → IsQuiet s → IsQuiet (later_replies s)
later_replies-IsQuiet [] q = tt
later_replies-IsQuiet (r ∷ rs) q = q.1

pub call-quiet :
    (f : World → World) (w : World) → IsQuiet w.script → call f w ≡ (ok tt, f (settle w))
unfolding call
call-quiet f w q = rw (fault_of-none w.script q)

-- A sequence after a call that does not throw.
pub >>-call :
    {B : Type 0} (f : World → World) (k : M B) (w : World)
    → IsQuiet w.script
    → (call f >> k) w ≡ k (f (settle w))
>>-call f k w q = ap (λ r. after r (λ _. k)) (call-quiet f w q)
