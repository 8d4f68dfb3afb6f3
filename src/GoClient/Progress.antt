-- ===== src/GoClient/Progress.antt =====
-- hooks/useImportProgress.ts of the Go pipeline's client: a job is followed by its event stream, or by
-- polling once the stream has failed. A state is what is kept between two events, once the effects of
-- the last one have run.
pub mod Alive
use csv_product_uploader.Prelude.{
  ℕ, zero, suc, Bool, true, false, ◌&&◌, ◌||◌, not, if◌then◌else◌, List, [], ◌∷◌, ◌++◌, Option,
  none, some, String,
}
use csv_product_uploader.Client.Dashboard.{is_set, same_id}
use csv_product_uploader.GoClient.Jobs.{ImportJob, is_settled}

pub record ImportProgress : Type 0 where
  -- The `jobId` that the hook was last called with.
  pub job_id : Option String
  pub job : Option ImportJob
  pub is_complete : Bool
  pub using_polling : Bool
  -- The job that the open event source is about.
  pub source : Option String
  -- The jobs of the polls that are not answered; an answer is used whatever is followed by then.
  pub polls : List String

abbrev pub no_progress : ImportProgress
no_progress = record {
  job_id = none;
  job = none;
  is_complete = false;
  using_polling = false;
  source = none;
  polls = [];
}

-- The first effect; what it returns closes the source of the job before.
unfoldable pub follow : Option String → ImportProgress → ImportProgress
follow id p = record p {
  job_id = id;
  job = none;
  is_complete = false;
  using_polling = false;
  source = if is_set id then id else none;
}

-- The effect runs when `jobId` changes.
unfoldable pub set_job_id : Option String → ImportProgress → ImportProgress
set_job_id id p = if same_id p.job_id id then p else follow id p

-- The data of an event of the stream: no JSON, `null`, or a job.
pub data Frame : Type 0 where
  malformed null_data : Frame
  parsed : ImportJob → Frame

-- `handle`. With `null` for data, reading `parsed.status` throws, which is caught, but not if the
-- event is 'done': then `status` is not read.
unfoldable pub handle : Frame → Bool → ImportProgress → ImportProgress
handle malformed done p = p
handle null_data done p =
    if done
    then record p { job = none; is_complete = true; source = none }
    else record p { job = none }
handle (parsed j) done p =
    if done || is_settled j.status
    then record p { job = some j; is_complete = true; source = none }
    else record p { job = some j }

-- The listeners of the event source, while it is open.
abbrev pub receive_frame : Option String → Frame → Bool → ImportProgress → ImportProgress
receive_frame none f done p = p
receive_frame (some id) f done p = handle f done p

-- `es.onerror`, while the source is open.
abbrev pub on_error : Option String → ImportProgress → ImportProgress
on_error none p = p
on_error (some id) p = record p { source = none; using_polling = true }

-- The interval of the second effect is set.
unfoldable pub polls_on : ImportProgress → Bool
polls_on p = p.using_polling && is_set p.job_id && not p.is_complete

abbrev pub asked : Option String → List String → List String
asked none polls = polls
asked (some id) polls = polls ++ id ∷ []

-- A tick of the interval, up to its request.
unfoldable pub send_poll : ImportProgress → ImportProgress
send_poll p = if polls_on p then record p { polls = asked p.job_id p.polls } else p

abbrev pub drop_nth : ℕ → List String → List String
drop_nth n [] = []
drop_nth zero (x ∷ xs) = xs
drop_nth (suc n) (x ∷ xs) = x ∷ drop_nth n xs

abbrev pub is_asked : ℕ → List String → Bool
is_asked n [] = false
is_asked zero (x ∷ xs) = true
is_asked (suc n) (x ∷ xs) = is_asked n xs

-- What follows `await`; no job is `null` or a request that failed.
abbrev pub use_poll : Option ImportJob → ImportProgress → ImportProgress
use_poll none p = p
use_poll (some j) p =
    if is_settled j.status
    then record p { job = some j; is_complete = true }
    else record p { job = some j }

-- The answer to the n-th of the polls.
unfoldable pub answer_poll : ℕ → Option ImportJob → ImportProgress → ImportProgress
answer_poll n j p =
    if is_asked n p.polls then use_poll j (record p { polls = drop_nth n p.polls }) else p
