-- ===== src/Witnesses/GoClient.antt =====
-- The dashboard of the Go pipeline's client.
use csv_product_uploader.Prelude.{
  ℕ, ◌*◌, ◌≤◌, ◌<◌, ◌↔◌, arith, true, false, [], ◌∷◌, none, some, length, ◌≡◌, refl, ◌⊎◌,
}
use csv_product_uploader.GoClient.Jobs.{ImportJob, JobStatus, is_completed_job}
use csv_product_uploader.Js.Number.{finite, unit}
use csv_product_uploader.GoClient.Dashboard.Prompt
use csv_product_uploader.GoClient.Dashboard.Prompt.{Follows, time_elapsed-products}
use csv_product_uploader.GoClient.Dashboard.Stale.{poll_answered-IsListed}
use csv_product_uploader.GoClient.Screens.{import_progress}
use csv_product_uploader.GoClient.Screens.Counts.{IsCounted, import_progress-shown}
use csv_product_uploader.GoClient.Progress.{
  is_asked, parsed, set_job_id, follow, send_poll, polls_on, handle,
}
use csv_product_uploader.GoClient.Dashboard
use csv_product_uploader.GoClient.Dashboard.{
  ImportDashboard, first_state, progress_chosen, frame_received, stream_failed, poll_due,
  poll_answered, time_elapsed, back_chosen, act, rerender, back_to_list, settle_job, dispatch,
  dispatch_all, show,
}
use csv_product_uploader.GoClient.Dashboard.Reached.{
  IsShown, Arrives, started, stepped, Arrives-IsShown,
}
use csv_product_uploader.GoClient.Dashboard.Settling.{IsListed, awaited_job-IsListed}

abbrev job : ImportJob
job = record {
  id = "j1";
  file_name = "milk.csv";
  status = JobStatus.completed;
  total_rows = 2;
  valid_rows = 1;
  invalid_rows = 1;
  published_rows = 1;
  processed_rows = 1;
  retried_rows = 0;
  dead_rows = 0;
  last_error = none;
  created_at = "2026-01-01";
  updated_at = "2026-01-01";
}

-- A job is followed, and its stream breaks.
abbrev opened : ImportDashboard
opened = dispatch (progress_chosen "j1") first_state

abbrev broken : ImportDashboard
broken = dispatch stream_failed opened

broken-Arrives : Arrives broken
broken-Arrives =
    stepped stream_failed opened tt (stepped (progress_chosen "j1") first_state refl started)

Arrives-IsShown_example : IsShown (show broken) broken.progress broken.active_job_id
Arrives-IsShown_example = Arrives-IsShown broken broken-Arrives

broken_view : broken.view ≡ Dashboard.processing
unfolding dispatch act rerender
broken_view = refl

broken_incomplete : broken.progress.is_complete ≡ false
unfolding dispatch act rerender set_job_id follow
broken_incomplete = refl

awaited_job-IsListed_example :
    IsListed broken.active_job_id
      (dispatch_all (frame_received (parsed job) true ∷ time_elapsed ∷ []) broken)
    ⊎ IsListed broken.active_job_id (
        dispatch_all
          (poll_due ∷ poll_answered (length broken.progress.polls) (some job) ∷ time_elapsed ∷ [])
          broken)
awaited_job-IsListed_example =
    awaited_job-IsListed broken job true broken-Arrives broken_view broken_incomplete refl

-- A poll about the first job is not answered when the user goes on to follow the second.
abbrev moved_on : ImportDashboard
moved_on = dispatch (progress_chosen "j2") (dispatch back_chosen (dispatch poll_due broken))

moved_on-Arrives : Arrives moved_on
moved_on-Arrives =
    stepped (progress_chosen "j2") (dispatch back_chosen (dispatch poll_due broken)) refl (
      stepped back_chosen (dispatch poll_due broken) tt (stepped poll_due broken tt broken-Arrives))

moved_on_view : moved_on.view ≡ Dashboard.processing
unfolding dispatch act rerender
moved_on_view = refl

moved_on_job : moved_on.active_job_id ≡ some "j2"
unfolding dispatch act rerender
moved_on_job = refl

first_asked : is_asked 0 moved_on.progress.polls ≡ true
unfolding dispatch act rerender set_job_id follow send_poll polls_on back_to_list
first_asked = refl

-- The answer about the first job opens the products of the second.
poll_answered-IsListed_example :
    IsListed moved_on.active_job_id
      (dispatch_all (poll_answered 0 (some job) ∷ time_elapsed ∷ []) moved_on)
poll_answered-IsListed_example =
    poll_answered-IsListed moved_on 0 job moved_on-Arrives moved_on_view first_asked refl

-- The job that is followed completes.
abbrev answered : ImportDashboard
answered = dispatch (frame_received (parsed job) true) opened

opened_source : opened.progress.source ≡ some "j1"
unfolding dispatch act rerender set_job_id follow
opened_source = refl

answered-Follows : Follows answered
answered-Follows =
    Prompt.stepped (frame_received (parsed job) true) opened tt opened_source
      (Prompt.stepped (progress_chosen "j1") first_state refl tt Prompt.started)

answered_view : answered.view ≡ Dashboard.processing
unfolding dispatch act rerender
answered_view = refl

answered_elapsed : (dispatch time_elapsed answered).view ≡ Dashboard.products
unfolding dispatch act rerender set_job_id follow handle settle_job
answered_elapsed = refl

time_elapsed-products_example :
    (j : ImportJob) × (answered.progress.job ≡ some j)
    × (is_completed_job j.status ≡ true)
    × (answered.active_job_id ≡ some j.id)
time_elapsed-products_example =
    time_elapsed-products answered answered-Follows answered_view answered_elapsed

counted : IsCounted job
counted = record { published = omega arith; processed = omega arith; small = omega arith }

import_progress-shown_example :
    (n : ℕ) × ((import_progress (some job)).bar ≡ finite false (n * unit))
    × (n ≤ 100)
    × (((import_progress (some job)).label ≡ "Complete") ↔ (
        (0 < job.valid_rows)
        × (job.published_rows ≡ job.valid_rows)
        × (job.processed_rows ≡ job.valid_rows)))
import_progress-shown_example = import_progress-shown job counted
