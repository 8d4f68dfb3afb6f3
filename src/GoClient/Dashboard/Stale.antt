-- ===== src/GoClient/Dashboard/Stale.antt =====
-- pages/Dashboard.tsx with hooks/useImportProgress.ts of the Go pipeline's client: the answer to a
-- poll that was sent for another job.
use csv_product_uploader.Prelude.{ℕ, true, [], ◌∷◌, some, ◌≡◌, subst}
use csv_product_uploader.GoClient.Jobs.{ImportJob, is_completed_job}
use csv_product_uploader.GoClient.Progress.{ImportProgress, drop_nth, is_asked, answer_poll}
use csv_product_uploader.GoClient.Dashboard.{
  processing, ImportDashboard, followed, rerender, poll_answered, time_elapsed, act, dispatch,
  dispatch_all,
}
use csv_product_uploader.GoClient.Dashboard.Reached.{IsAbout, Arrives, Arrives-IsSound}
use csv_product_uploader.GoClient.Dashboard.Settling.{
  IsListed, Holds, set_job_id-Holds, use_poll-Holds, completed_settled, elapse-IsListed,
  rendered_query,
}

asked-Holds :
    (n : ℕ) (j : ImportJob) (p : ImportProgress)
    → is_asked n p.polls ≡ true
    → is_completed_job j.status ≡ true
    → Holds j p.job_id (answer_poll n (some j) p)
unfolding answer_poll
asked-Holds n j p a h =
    rw a (use_poll-Holds j (record p { polls = drop_nth n p.polls }) (completed_settled j h))

-- In every state that the events lead to in which the processing view is open, the answer to any
-- poll that was ever sent and is not answered yet, whichever job the poll and the answer are about,
-- takes the user to the products of the active job, if the answer says completed: the active job
-- need not be completed itself.
pub poll_answered-IsListed :
    (d : ImportDashboard) (n : ℕ) (other : ImportJob)
    → Arrives d
    → d.view ≡ processing
    → is_asked n d.progress.polls ≡ true
    → is_completed_job other.status ≡ true
    → IsListed d.active_job_id (dispatch_all (poll_answered n (some other) ∷ time_elapsed ∷ []) d)
unfolding dispatch_all dispatch act rerender
poll_answered-IsListed d n other r v a h =
    let w = Arrives-IsSound d r in
    let held =
      set_job_id-Holds other (followed d.view d.active_job_id)
        (answer_poll n (some other) d.progress)
        (subst (λ o. Holds other o (answer_poll n (some other) d.progress)) w.tracked
          (asked-Holds n other d.progress a h)) in
    elapse-IsListed (dispatch (poll_answered n (some other)) d) other v held.complete held.job h
      (rendered_query (act (poll_answered n (some other)) d) v)
      (subst (λ x. IsAbout x d.active_job_id) v w.about)
