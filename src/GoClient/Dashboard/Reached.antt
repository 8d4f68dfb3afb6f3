-- ===== src/GoClient/Dashboard/Reached.antt =====
-- pages/Dashboard.tsx of the Go pipeline's client: the states that the events lead to.
use csv_product_uploader.Prelude.{
  Bool, true, false, Option, none, some, String, str_eq, ◌≡◌, refl, ◌∙◌, arith, Bool-cases, ◌⊎◌,
  inl, inr,
}
use csv_product_uploader.Client.Dashboard.{is_set, same_id}
use csv_product_uploader.GoClient.Jobs.{ImportJob, JobStatus, is_completed_job}
use csv_product_uploader.GoClient.Progress.{ImportProgress, polls_on}
use csv_product_uploader.GoClient.Progress.Alive.{
  has_job, IsJob, GoesOn, IsAlive, set_job_id-IsAlive, set_job_id-job_id, receive_frame-IsAlive,
  on_error-IsAlive, send_poll-IsAlive, answer_poll-IsAlive,
}
use csv_product_uploader.GoClient.Dashboard.{
  Page, list, upload, processing, products, report, ImportDashboard, followed, first_state,
  rerender, start_following, back_to_list, settle_job, elapse, Action, file_chosen, file_removed,
  upload_begun, error_set, upload_done, upload_failed, frame_received, stream_failed, poll_due,
  poll_answered, time_elapsed, imports_due, imports_answered, imports_refused, products_due,
  products_answered, products_chosen, progress_chosen, report_chosen, upload_chosen, back_chosen,
  filter_chosen, sort_chosen, limit_chosen, page_chosen, act, dispatch, Screen, upload_screen,
  processing_screen, products_screen, report_screen, list_screen, blank, about_job, screen_of, show,
}

-- The views of one job have one.
abbrev pub IsAbout : Page → Option String → Type 0
IsAbout list id = Unit
IsAbout upload id = Unit
IsAbout processing id = is_set id ≡ true
IsAbout products id = is_set id ≡ true
IsAbout report id = is_set id ≡ true

-- The ids of jobs, which the server gives, are not empty, and the stream's events carry jobs.
abbrev pub IsServed : Action → Type 0
IsServed (frame_received f done) = IsJob f
IsServed (products_chosen id) = str_eq id "" ≡ false
IsServed (progress_chosen id) = str_eq id "" ≡ false
IsServed (report_chosen id) = str_eq id "" ≡ false
IsServed _ = Unit

pub data Arrives : ImportDashboard → Type 0 where
  started : Arrives first_state
  stepped : (a : Action) (d : ImportDashboard) → IsServed a → Arrives d → Arrives (dispatch a d)

-- What the handlers keep; the render brings the hook's job.
record Keeps (d : ImportDashboard) : Type 0 where
  about : IsAbout d.view d.active_job_id
  alive : IsAlive d.progress

pub record IsSound (d : ImportDashboard) : Type 0 where
  pub about : IsAbout d.view d.active_job_id
  pub alive : IsAlive d.progress
  pub tracked : d.progress.job_id ≡ followed d.view d.active_job_id

rerender-IsSound : (d : ImportDashboard) → Keeps d → IsSound (rerender d)
unfolding rerender
rerender-IsSound d k = record {
  about = k.about;
  alive = set_job_id-IsAlive (followed d.view d.active_job_id) d.progress k.alive;
  tracked = set_job_id-job_id (followed d.view d.active_job_id) d.progress;
}

start_following-Keeps :
    (before now : Option String) (d : ImportDashboard)
    → Keeps d
    → Keeps (start_following before now d)
start_following-Keeps before now d k = elim (Bool-cases (same_id before now)) [
  | inl same ↦ rw same k
  | inr changed ↦ elim (Bool-cases (is_set now)) [
    | inl named ↦ rw (changed, named) (record { about = named; alive = k.alive })
    | inr empty ↦ rw (changed, empty) k
  ]
]

settle_job-Keeps :
    (s : JobStatus) (d : ImportDashboard)
    → is_set d.active_job_id ≡ true
    → IsAlive d.progress
    → Keeps (settle_job s d)
unfolding settle_job back_to_list
settle_job-Keeps s d n a = elim (Bool-cases (is_completed_job s)) [
  | inl well ↦ rw well (record { about = n; alive = a })
  | inr badly ↦ rw badly (record { about = tt; alive = a })
]

elapse-Keeps :
    (v : Page) (c : Bool) (j : Option ImportJob) (d : ImportDashboard)
    → IsAbout v d.active_job_id
    → Keeps d
    → Keeps (elapse v c j d)
elapse-Keeps processing true (some j) d n k = settle_job-Keeps j.status d n k.alive
elapse-Keeps processing true none d n k = k
elapse-Keeps processing false j d n k = k
elapse-Keeps list c j d n k = k
elapse-Keeps upload c j d n k = k
elapse-Keeps products c j d n k = k
elapse-Keeps report c j d n k = k

set_named : (id : String) → str_eq id "" ≡ false → is_set (some id) ≡ true
set_named id h = rw h refl

act-Keeps : (a : Action) (d : ImportDashboard) → IsServed a → Keeps d → Keeps (act a d)
unfolding act back_to_list
act-Keeps (file_chosen f) d s k = record { about = k.about; alive = k.alive }
act-Keeps file_removed d s k = record { about = k.about; alive = k.alive }
act-Keeps upload_begun d s k = record { about = k.about; alive = k.alive }
act-Keeps (error_set m) d s k = record { about = k.about; alive = k.alive }
act-Keeps (upload_done id) d s k =
    start_following-Keeps d.uploads.active_job_id _ _ (record { about = k.about; alive = k.alive })
act-Keeps (upload_failed m) d s k = record { about = k.about; alive = k.alive }
act-Keeps (frame_received f done) d s k = record {
  about = k.about;
  alive = receive_frame-IsAlive d.progress.source f done d.progress s k.alive;
}
act-Keeps stream_failed d s k = record {
  about = k.about;
  alive = on_error-IsAlive d.progress.source d.progress k.alive;
}
act-Keeps poll_due d s k = record { about = k.about; alive = send_poll-IsAlive d.progress k.alive }
act-Keeps (poll_answered n j) d s k = record {
  about = k.about;
  alive = answer_poll-IsAlive n j d.progress k.alive;
}
act-Keeps time_elapsed d s k = elapse-Keeps d.view d.progress.is_complete d.progress.job d k.about k
act-Keeps imports_due d s k = record { about = k.about; alive = k.alive }
act-Keeps (imports_answered js) d s k = record { about = k.about; alive = k.alive }
act-Keeps (imports_refused m) d s k = record { about = k.about; alive = k.alive }
act-Keeps products_due d s k = record { about = k.about; alive = k.alive }
act-Keeps (products_answered n r) d s k = record { about = k.about; alive = k.alive }
act-Keeps (products_chosen id) d s k = record { about = set_named id s; alive = k.alive }
act-Keeps (progress_chosen id) d s k = record { about = set_named id s; alive = k.alive }
act-Keeps (report_chosen id) d s k = record { about = set_named id s; alive = k.alive }
act-Keeps upload_chosen d s k = record { about = tt; alive = k.alive }
act-Keeps back_chosen d s k = record { about = tt; alive = k.alive }
act-Keeps (filter_chosen m) d s k = record { about = k.about; alive = k.alive }
act-Keeps (sort_chosen by order) d s k = record { about = k.about; alive = k.alive }
act-Keeps (limit_chosen n) d s k = record { about = k.about; alive = k.alive }
act-Keeps (page_chosen n) d s k = record { about = k.about; alive = k.alive }

pub Arrives-IsSound : (d : ImportDashboard) → Arrives d → IsSound d
unfolding dispatch
Arrives-IsSound _ started = record {
  about = tt;
  alive = record {
    settled = λ e. absurd (ground arith);
    live = λ h. absurd (ground arith);
    sourced = λ i e. absurd (ground arith);
  };
  tracked = refl;
}
Arrives-IsSound _ (stepped a d s r) =
    let w = Arrives-IsSound d r in
    rerender-IsSound (act a d) (act-Keeps a d s (record { about = w.about; alive = w.alive }))

-- The screen of a job that is awaited changes by itself: the timer is set, the polls are on, or the
-- event source of the job is open.
abbrev pub IsShown : Screen → ImportProgress → Option String → Type 0
IsShown (upload_screen u) p id = Unit
IsShown (processing_screen j complete) p id =
    ((complete ≡ true) × (has_job j ≡ true))
    ⊎ ((polls_on p ≡ true) ⊎ ((p.source ≡ id) × (complete ≡ false)))
IsShown (products_screen i c f) p id = id ≡ some i
IsShown (report_screen i) p id = id ≡ some i
IsShown (list_screen js l) p id = Unit
IsShown blank p id = ⊥

about_job-IsShown :
    (id : Option String) (f : String → Screen) (p : ImportProgress)
    → is_set id ≡ true
    → ((i : String) → IsShown (f i) p (some i))
    → IsShown (about_job id f) p id
about_job-IsShown none f p h g = absurd (ground arith)
about_job-IsShown (some id) f p h g = rw h (g id)

pub open_or_polled :
    (p : ImportProgress) (id : Option String)
    → GoesOn p
    → p.job_id ≡ id
    → is_set id ≡ true
    → p.is_complete ≡ false
    → (polls_on p ≡ true) ⊎ ((p.source ≡ id) × (p.is_complete ≡ false))
unfolding polls_on
open_or_polled p id (inl over) t n c = absurd (ground arith)
open_or_polled p id (inr (inl polling)) t n c = inl (rw (polling, t, n, c) refl)
open_or_polled p id (inr (inr open_source)) t n c = inr (open_source ∙ t, c)

awaited :
    (p : ImportProgress) (id : Option String)
    → IsAlive p
    → p.job_id ≡ id
    → is_set id ≡ true
    → IsShown (processing_screen p.job p.is_complete) p id
unfolding polls_on
awaited p id a t n = elim (Bool-cases p.is_complete) [
  | inl over ↦ inl (over, a.settled over)
  | inr going ↦ inr (open_or_polled p id (a.live (rw t n)) t n going)
]

screen_of-IsShown :
    (v : Page) (d : ImportDashboard)
    → IsAbout v d.active_job_id
    → IsAlive d.progress
    → d.progress.job_id ≡ followed v d.active_job_id
    → IsShown (screen_of v d) d.progress d.active_job_id
screen_of-IsShown list d n a t = tt
screen_of-IsShown upload d n a t = tt
screen_of-IsShown processing d n a t = awaited d.progress d.active_job_id a t n
screen_of-IsShown products d n a t =
    about_job-IsShown d.active_job_id (λ id. products_screen id d.catalog d.filters) d.progress n
      (λ i. refl)
screen_of-IsShown report d n a t =
    about_job-IsShown d.active_job_id report_screen d.progress n (λ i. refl)

-- In every state that the events lead to, something is shown; the products and the report are those
-- of the active job; and the processing view is never stuck: its job is there and complete, so that
-- the timer is set, or the polls for it are on, or the event source of the active job is open and
-- it is not complete. Asked is that the ids of jobs are not empty and that no event of the stream
-- carries `null`.
pub Arrives-IsShown :
    (d : ImportDashboard) → Arrives d → IsShown (show d) d.progress d.active_job_id
unfolding show
Arrives-IsShown d r =
    let w = Arrives-IsSound d r in screen_of-IsShown d.view d w.about w.alive w.tracked
