-- ===== src/GoClient/Dashboard/Prompt.antt =====
-- pages/Dashboard.tsx with hooks/useImportProgress.ts of the Go pipeline's client: what holds as long as
-- every answer to a poll comes while its job is still followed.
use csv_product_uploader.Prelude.{
  ℕ, Bool, true, false, ◌||◌, Option, none, some, String, ◌≡◌, refl, sym, ap, ◌∙◌, subst, arith,
  Bool-cases, ◌⊎◌, inl, inr,
}
use csv_product_uploader.Client.Dashboard.{is_set, same_id}
use csv_product_uploader.GoClient.Jobs.{ImportJob, JobStatus, is_completed_job, is_settled}
use csv_product_uploader.GoClient.Progress.{
  ImportProgress, drop_nth, follow, set_job_id, Frame, malformed, null_data, parsed, handle,
  receive_frame, on_error, polls_on, send_poll, is_asked, use_poll, answer_poll,
}
use csv_product_uploader.GoClient.Dashboard.{
  Page, list, upload, processing, products, report, ImportDashboard, followed, first_state,
  rerender, start_following, back_to_list, settle_job, elapse, Action, file_chosen, file_removed,
  upload_begun, error_set, upload_done, upload_failed, frame_received, stream_failed, poll_due,
  poll_answered, time_elapsed, imports_due, imports_answered, imports_refused, products_due,
  products_answered, products_chosen, progress_chosen, report_chosen, upload_chosen, back_chosen,
  filter_chosen, sort_chosen, limit_chosen, page_chosen, act, dispatch,
}
use csv_product_uploader.GoClient.Progress.Alive.{IsJob, IsAlive}
use csv_product_uploader.GoClient.Dashboard.Reached
use csv_product_uploader.GoClient.Dashboard.Reached.{Arrives, IsServed, IsSound, Arrives-IsSound}

abbrev id_of : Option ImportJob → Option String
id_of none = none
id_of (some j) = some j.id

-- An event of the stream is about the stream's job, and an answer to a poll about the job that is followed.
abbrev pub IsPrompt : ImportDashboard → Action → Type 0
IsPrompt d (frame_received (parsed j) done) = d.progress.source ≡ some j.id
IsPrompt d (poll_answered n (some j)) = d.progress.job_id ≡ some j.id
IsPrompt d _ = Unit

pub data Follows : ImportDashboard → Type 0 where
  started : Follows first_state
  stepped :
      (a : Action) (d : ImportDashboard)
      → IsServed a
      → IsPrompt d a
      → Follows d
      → Follows (dispatch a d)

pub Follows-Arrives : (d : ImportDashboard) → Follows d → Arrives d
Follows-Arrives _ started = Reached.started
Follows-Arrives _ (stepped a d s p r) = Reached.stepped a d s (Follows-Arrives d r)

-- The job that is kept is the one that is followed.
abbrev IsOwn : ImportProgress → Type 0
IsOwn p = (p.job ≡ none) ⊎ (id_of p.job ≡ p.job_id)

set_job_id-IsOwn : (id : Option String) (p : ImportProgress) → IsOwn p → IsOwn (set_job_id id p)
unfolding set_job_id follow
set_job_id-IsOwn id p o = elim (Bool-cases (same_id p.job_id id)) [
  | inl same ↦ rw same o
  | inr changed ↦ rw changed (inl refl)
]

handle-IsOwn :
    (j : ImportJob) (done : Bool) (p : ImportProgress)
    → p.job_id ≡ some j.id
    → IsOwn (handle (parsed j) done p)
unfolding handle
handle-IsOwn j done p h = elim (Bool-cases (done || is_settled j.status)) [
  | inl over ↦ rw over (inr (sym h))
  | inr going ↦ rw going (inr (sym h))
]

on_error-IsOwn : (source : Option String) (p : ImportProgress) → IsOwn p → IsOwn (on_error source p)
on_error-IsOwn none p o = o
on_error-IsOwn (some id) p o = o

send_poll-IsOwn : (p : ImportProgress) → IsOwn p → IsOwn (send_poll p)
unfolding send_poll
send_poll-IsOwn p o = elim (Bool-cases (polls_on p)) [ inl due ↦ rw due o | inr off ↦ rw off o ]

use_poll-IsOwn :
    (j : ImportJob) (p : ImportProgress) → p.job_id ≡ some j.id → IsOwn (use_poll (some j) p)
use_poll-IsOwn j p h = elim (Bool-cases (is_settled j.status)) [
  | inl over ↦ rw over (inr (sym h))
  | inr going ↦ rw going (inr (sym h))
]

answer_poll-IsOwn :
    (n : ℕ) (j : ImportJob) (p : ImportProgress)
    → p.job_id ≡ some j.id
    → IsOwn p
    → IsOwn (answer_poll n (some j) p)
unfolding answer_poll
answer_poll-IsOwn n j p h o = elim (Bool-cases (is_asked n p.polls)) [
  | inl asked_for ↦ rw asked_for (use_poll-IsOwn j (record p { polls = drop_nth n p.polls }) h)
  | inr other ↦ rw other o
]

answer_nothing-IsOwn : (n : ℕ) (p : ImportProgress) → IsOwn p → IsOwn (answer_poll n none p)
unfolding answer_poll
answer_nothing-IsOwn n p o = elim (Bool-cases (is_asked n p.polls)) [
  | inl asked_for ↦ rw asked_for o
  | inr other ↦ rw other o
]

settle_job-progress : (s : JobStatus) (d : ImportDashboard) → (settle_job s d).progress ≡ d.progress
unfolding settle_job back_to_list
settle_job-progress s d = elim (Bool-cases (is_completed_job s)) [
  | inl well ↦ rw well refl
  | inr badly ↦ rw badly refl
]

elapse-progress :
    (v : Page) (c : Bool) (j : Option ImportJob) (d : ImportDashboard)
    → (elapse v c j d).progress ≡ d.progress
elapse-progress processing true (some j) d = settle_job-progress j.status d
elapse-progress processing true none d = refl
elapse-progress processing false j d = refl
elapse-progress list c j d = refl
elapse-progress upload c j d = refl
elapse-progress products c j d = refl
elapse-progress report c j d = refl

start_following-progress :
    (before now : Option String) (d : ImportDashboard)
    → (start_following before now d).progress ≡ d.progress
start_following-progress before now d = elim (Bool-cases (same_id before now)) [
  | inl same ↦ rw same refl
  | inr changed ↦ elim (Bool-cases (is_set now)) [
    | inl named ↦ rw (changed, named) refl
    | inr empty ↦ rw (changed, empty) refl
  ]
]

receive_frame-IsOwn :
    (source : Option String) (f : Frame) (done : Bool) (p : ImportProgress)
    → IsJob f
    → ((j : ImportJob) → f ≡ parsed j → p.job_id ≡ some j.id)
    → IsOwn p
    → IsOwn (receive_frame source f done p)
unfolding handle
receive_frame-IsOwn none f done p s h o = o
receive_frame-IsOwn (some id) malformed done p s h o = o
receive_frame-IsOwn (some id) null_data done p s h o = absurd s
receive_frame-IsOwn (some id) (parsed j) done p s h o = handle-IsOwn j done p (h j refl)

frame_prompt :
    (f : Frame) (done : Bool) (d : ImportDashboard)
    → IsAlive d.progress
    → IsPrompt d (frame_received f done)
    → (j : ImportJob) → f ≡ parsed j
    → d.progress.job_id ≡ some j.id
frame_prompt f done d a h j e = a.sourced j.id (subst (λ g. IsPrompt d (frame_received g done)) e h)

act-IsOwn :
    (a : Action) (d : ImportDashboard)
    → IsServed a
    → IsPrompt d a
    → IsAlive d.progress
    → IsOwn d.progress
    → IsOwn (act a d).progress
unfolding act back_to_list
act-IsOwn (file_chosen f) d s h a o = o
act-IsOwn file_removed d s h a o = o
act-IsOwn upload_begun d s h a o = o
act-IsOwn (error_set m) d s h a o = o
act-IsOwn (upload_done id) d s h a o =
    subst IsOwn (sym (start_following-progress d.uploads.active_job_id _ _)) o
act-IsOwn (upload_failed m) d s h a o = o
act-IsOwn (frame_received f done) d s h a o =
    receive_frame-IsOwn d.progress.source f done d.progress s (frame_prompt f done d a h) o
act-IsOwn stream_failed d s h a o = on_error-IsOwn d.progress.source d.progress o
act-IsOwn poll_due d s h a o = send_poll-IsOwn d.progress o
act-IsOwn (poll_answered n none) d s h a o = answer_nothing-IsOwn n d.progress o
act-IsOwn (poll_answered n (some j)) d s h a o = answer_poll-IsOwn n j d.progress h o
act-IsOwn time_elapsed d s h a o =
    subst IsOwn (sym (elapse-progress d.view d.progress.is_complete d.progress.job d)) o
act-IsOwn imports_due d s h a o = o
act-IsOwn (imports_answered js) d s h a o = o
act-IsOwn (imports_refused m) d s h a o = o
act-IsOwn products_due d s h a o = o
act-IsOwn (products_answered n r) d s h a o = o
act-IsOwn (products_chosen id) d s h a o = o
act-IsOwn (progress_chosen id) d s h a o = o
act-IsOwn (report_chosen id) d s h a o = o
act-IsOwn upload_chosen d s h a o = o
act-IsOwn back_chosen d s h a o = o
act-IsOwn (filter_chosen m) d s h a o = o
act-IsOwn (sort_chosen by order) d s h a o = o
act-IsOwn (limit_chosen n) d s h a o = o
act-IsOwn (page_chosen n) d s h a o = o

Follows-IsOwn : (d : ImportDashboard) → Follows d → IsOwn d.progress
unfolding dispatch rerender
Follows-IsOwn _ started = inl refl
Follows-IsOwn _ (stepped a d s h r) =
    let w = Arrives-IsSound d (Follows-Arrives d r) in
    set_job_id-IsOwn _ _ (act-IsOwn a d s h w.alive (Follows-IsOwn d r))

settled-completed :
    (j : ImportJob) (d : ImportDashboard)
    → (settle_job j.status d).view ≡ products
    → is_completed_job j.status ≡ true
unfolding settle_job back_to_list
settled-completed j d h = elim (Bool-cases (is_completed_job j.status)) [
  | inl well ↦ well
  | inr badly ↦ absurd (ground arith)
]

elapse-completed :
    (v : Page) (c : Bool) (job : Option ImportJob) (d : ImportDashboard)
    → d.view ≡ processing
    → v ≡ processing
    → (elapse v c job d).view ≡ products
    → (j : ImportJob) × (job ≡ some j) × (is_completed_job j.status ≡ true)
elapse-completed processing true (some j) d w e h = (j, refl, settled-completed j d h)
elapse-completed processing true none d w e h = absurd (ground arith)
elapse-completed processing false job d w e h = absurd (ground arith)
elapse-completed list c job d w e h = absurd (ground arith)
elapse-completed upload c job d w e h = absurd (ground arith)
elapse-completed products c job d w e h = absurd (ground arith)
elapse-completed report c job d w e h = absurd (ground arith)

own_job : (p : ImportProgress) (j : ImportJob) → p.job ≡ some j → IsOwn p → p.job_id ≡ some j.id
own_job p j e (inl nothing) = absurd (ground arith)
own_job p j e (inr own) = sym own ∙ ap id_of e

-- In every state that the events lead to, as long as every event of the stream is about the job of
-- its event source and every answer to a poll about the job that is followed when it comes, the
-- timer of the processing view opens the products only when the job that is shown is the active
-- one and has completed.
pub time_elapsed-products :
    (d : ImportDashboard)
    → Follows d
    → d.view ≡ processing
    → (dispatch time_elapsed d).view ≡ products
    → (j : ImportJob) × (d.progress.job ≡ some j)
      × (is_completed_job j.status ≡ true)
      × (d.active_job_id ≡ some j.id)
unfolding dispatch act rerender
time_elapsed-products d r v h =
    let w = Arrives-IsSound d (Follows-Arrives d r) in
    let tracked = subst (λ u. d.progress.job_id ≡ followed u d.active_job_id) v w.tracked in
    let (j, e, c) = elapse-completed d.view d.progress.is_complete d.progress.job d v v h in
    (j, e, c, sym tracked ∙ own_job d.progress j e (Follows-IsOwn d r))
