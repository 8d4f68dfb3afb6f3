-- ===== src/GoClient/Dashboard/Settling.antt =====
-- pages/Dashboard.tsx of the Go pipeline's client: an import that is followed to its products.
use csv_product_uploader.Prelude.{
  Bool, true, false, ◌||◌, List, [], ◌∷◌, ◌++◌, length, Option, none, some, String, eq_refl, ◌≡◌,
  refl, sym, ap, ◌∙◌, subst, arith, ◌⊎◌, inl, inr,
}
use csv_product_uploader.Client.Dashboard.{is_set, same_id}
use csv_product_uploader.GoClient.Jobs.{ImportJob, is_completed_job, is_settled}
use csv_product_uploader.GoClient.Progress.{
  ImportProgress, set_job_id, parsed, handle, receive_frame, polls_on, send_poll, drop_nth,
  is_asked, use_poll, answer_poll,
}
use csv_product_uploader.GoClient.Products.{
  CatalogQuery, CatalogData, set_query, fetch_page, same_query,
}
use csv_product_uploader.GoClient.Products.Latest.{set_query-query}
use csv_product_uploader.GoClient.Dashboard.{
  listed, Page, processing, products, ImportDashboard, followed, rerender, settle_job, elapse,
  frame_received, poll_due, poll_answered, time_elapsed, act, dispatch, dispatch_all,
}
use csv_product_uploader.GoClient.Dashboard.Reached.{
  IsAbout, open_or_polled, Arrives, Arrives-IsSound,
}

-- The products view is open on a job, and the newest request, which is not answered, is for the first
-- page of the job's products.
pub record IsListed (id : Option String) (d : ImportDashboard) : Type 0 where
  pub view : d.view ≡ products
  pub active : d.active_job_id ≡ id
  pub page : d.page ≡ 1
  pub query_job : d.catalog.query.job_id ≡ id
  pub query_page : d.catalog.query.page ≡ 1
  pub loading : d.catalog.loading ≡ true
  pub earlier : List CatalogQuery
  pub requested : d.catalog.requests ≡ earlier ++ d.catalog.query ∷ []

same_id-none : (o : Option String) → is_set o ≡ true → same_id none o ≡ false
same_id-none none h = absurd (ground arith)
same_id-none (some id) h = refl

-- A job's products are asked for when none were before.
set_query-asks :
    (q : CatalogQuery) (d : CatalogData)
    → d.query.job_id ≡ none
    → is_set q.job_id ≡ true
    → set_query q d ≡ record d { query = q; loading = true; requests = d.requests ++ q ∷ [] }
unfolding set_query fetch_page same_query
set_query-asks q d h n = rw (h, same_id-none q.job_id n, n) refl

same_id_refl : (a : Option String) → same_id a a ≡ true
same_id_refl none = refl
same_id_refl (some a) = eq_refl a

set_job_id_same : (id : Option String) (p : ImportProgress) → p.job_id ≡ id → set_job_id id p ≡ p
unfolding set_job_id
set_job_id_same id p h = let e : same_id p.job_id id ≡ true = rw h (same_id_refl id) in rw e refl

abbrev to_products : ImportDashboard → ImportDashboard
to_products d = record d { page = 1; view = products }

elapse_completed :
    (v : Page) (c : Bool) (o : Option ImportJob) (j : ImportJob) (d : ImportDashboard)
    → v ≡ processing
    → c ≡ true
    → o ≡ some j
    → is_completed_job j.status ≡ true
    → elapse v c o d ≡ to_products d
unfolding settle_job
elapse_completed v c o j d v_is c_is o_is h = rw (v_is, c_is, o_is, h) refl

to_products-IsListed :
    (d : ImportDashboard)
    → d.catalog.query.job_id ≡ none
    → is_set d.active_job_id ≡ true
    → IsListed d.active_job_id (rerender (to_products d))
unfolding rerender
to_products-IsListed d q n =
    let asks =
      set_query-asks (record { job_id = d.active_job_id; filters = d.filters; page = 1 }) d.catalog
        q n in
    record {
      view = refl;
      active = refl;
      page = refl;
      query_job = ap (λ c. c.query.job_id) asks;
      query_page = ap (λ c. c.query.page) asks;
      loading = ap (λ c. c.loading) asks;
      earlier = d.catalog.requests;
      requested =
          ap (λ c. c.requests) asks ∙ ap (λ c. d.catalog.requests ++ c.query ∷ []) (sym asks);
    }

-- The timer of a complete job that is there.
pub elapse-IsListed :
    (d : ImportDashboard) (j : ImportJob)
    → d.view ≡ processing
    → d.progress.is_complete ≡ true
    → d.progress.job ≡ some j
    → is_completed_job j.status ≡ true
    → d.catalog.query.job_id ≡ none
    → is_set d.active_job_id ≡ true
    → IsListed d.active_job_id (dispatch time_elapsed d)
unfolding dispatch act
elapse-IsListed d j v c o h q n =
    subst (λ e. IsListed d.active_job_id (rerender e)) (sym (elapse_completed _ _ _ j d v c o h))
      (to_products-IsListed d q n)

-- In the processing view no products are asked for.
pub rendered_query :
    (d : ImportDashboard) → d.view ≡ processing → (rerender d).catalog.query.job_id ≡ none
unfolding rerender
rendered_query d v =
    ap (λ q. q.job_id) (set_query-query _ d.catalog) ∙ ap (λ x. listed x d.active_job_id) v

-- The hook holds a complete job.
pub record Holds (j : ImportJob) (id : Option String) (p : ImportProgress) : Type 0 where
  pub complete : p.is_complete ≡ true
  pub job : p.job ≡ some j
  pub job_id : p.job_id ≡ id

pub set_job_id-Holds :
    (j : ImportJob) (id : Option String) (p : ImportProgress)
    → Holds j id p
    → Holds j id (set_job_id id p)
set_job_id-Holds j id p h = subst (Holds j id) (sym (set_job_id_same id p h.job_id)) h

pub completed_settled :
    (j : ImportJob) → is_completed_job j.status ≡ true → is_settled j.status ≡ true
completed_settled j h = rw h refl

frame-Holds :
    (source : Option String) (id : String) (done : Bool) (j : ImportJob) (p : ImportProgress)
    → source ≡ some id
    → (done || is_settled j.status) ≡ true
    → Holds j p.job_id (receive_frame source (parsed j) done p)
unfolding handle
frame-Holds source id done j p s h =
    rw (s, h) (record { complete = refl; job = refl; job_id = refl })

settled_frame :
    (done : Bool) (j : ImportJob)
    → is_completed_job j.status ≡ true
    → (done || is_settled j.status) ≡ true
settled_frame true j h = refl
settled_frame false j h = completed_settled j h

-- The last event of the stream, and the timer.
frame-IsListed :
    (d : ImportDashboard) (j : ImportJob) (id : String) (done : Bool)
    → d.view ≡ processing
    → d.progress.source ≡ some id
    → d.progress.job_id ≡ followed d.view d.active_job_id
    → is_completed_job j.status ≡ true
    → is_set d.active_job_id ≡ true
    → IsListed d.active_job_id (dispatch_all (frame_received (parsed j) done ∷ time_elapsed ∷ []) d)
unfolding dispatch_all dispatch act rerender
frame-IsListed d j id done v s t h n =
    let held =
      set_job_id-Holds j (followed d.view d.active_job_id)
        (receive_frame d.progress.source (parsed j) done d.progress)
        (rw (← t)
          (frame-Holds d.progress.source id done j d.progress s (settled_frame done j h))) in
    elapse-IsListed (dispatch (frame_received (parsed j) done) d) j v held.complete held.job h
      (rendered_query (act (frame_received (parsed j) done) d) v) n

set_some : (o : Option String) → is_set o ≡ true → (id : String) × (o ≡ some id)
set_some none h = absurd (ground arith)
set_some (some id) h = (id, refl)

is_asked_last :
    (polls : List String) (id : String) → is_asked (length polls) (polls ++ id ∷ []) ≡ true
is_asked_last [] id = refl
is_asked_last (x ∷ polls) id = is_asked_last polls id

pub use_poll-Holds :
    (j : ImportJob) (p : ImportProgress)
    → is_settled j.status ≡ true
    → Holds j p.job_id (use_poll (some j) p)
use_poll-Holds j p h = rw h (record { complete = refl; job = refl; job_id = refl })

sent_poll :
    (id : String) (p : ImportProgress)
    → polls_on p ≡ true
    → p.job_id ≡ some id
    → send_poll p ≡ record p { polls = p.polls ++ id ∷ [] }
unfolding send_poll
sent_poll id p on i = rw (on, i) refl

poll-Holds :
    (id : String) (j : ImportJob) (p : ImportProgress)
    → is_completed_job j.status ≡ true
    → Holds j p.job_id
        (answer_poll (length p.polls) (some j) (record p { polls = p.polls ++ id ∷ [] }))
unfolding answer_poll
poll-Holds id j p h = rw (is_asked_last p.polls id) (
    use_poll-Holds j (record p { polls = drop_nth (length p.polls) (p.polls ++ id ∷ []) })
      (completed_settled j h))

-- A poll, its answer, and the timer.
poll-IsListed :
    (d : ImportDashboard) (j : ImportJob) (id : String)
    → d.view ≡ processing
    → polls_on d.progress ≡ true
    → d.progress.job_id ≡ followed d.view d.active_job_id
    → d.progress.job_id ≡ some id
    → is_completed_job j.status ≡ true
    → is_set d.active_job_id ≡ true
    → IsListed d.active_job_id (
        dispatch_all
          (poll_due ∷ poll_answered (length d.progress.polls) (some j) ∷ time_elapsed ∷ [])
          d)
unfolding dispatch_all dispatch act rerender
poll-IsListed d j id v on t i h n =
    let due : ImportProgress = record d.progress { polls = d.progress.polls ++ id ∷ [] } in
    let sent : (dispatch poll_due d).progress ≡ due =
      ap (set_job_id (followed d.view d.active_job_id)) (sent_poll id d.progress on i)
      ∙ set_job_id_same (followed d.view d.active_job_id) due t in
    let held =
      set_job_id-Holds j (followed d.view d.active_job_id)
        (answer_poll (length d.progress.polls) (some j) (dispatch poll_due d).progress)
        (subst
          (λ p.
            Holds j (followed d.view d.active_job_id)
              (answer_poll (length d.progress.polls) (some j) p))
          (sym sent)
          (subst (λ o. Holds j o (answer_poll (length d.progress.polls) (some j) due)) t
            (poll-Holds id j d.progress h))) in
    elapse-IsListed
      (dispatch (poll_answered (length d.progress.polls) (some j)) (dispatch poll_due d)) j v
      held.complete held.job h
      (rendered_query (act (poll_answered (length d.progress.polls) (some j)) (dispatch poll_due d))
        v)
      n

-- In every state that the events lead to in which the processing view awaits its job, one of two
-- ways is open to the products: the next event of the stream, or the next poll with its answer, and
-- then the timer. By that way, if the server says that the job is completed, the products view opens
-- on the active job, and the first page of its products is requested, whatever else happened before.
-- Asked is what
-- the states ask for: that the ids of jobs are not empty and that no event of the stream carries
-- `null`.
pub awaited_job-IsListed :
    (d : ImportDashboard) (j : ImportJob) (done : Bool)
    → Arrives d
    → d.view ≡ processing
    → d.progress.is_complete ≡ false
    → is_completed_job j.status ≡ true
    → IsListed d.active_job_id (dispatch_all (frame_received (parsed j) done ∷ time_elapsed ∷ []) d)
      ⊎ IsListed d.active_job_id (
          dispatch_all
            (poll_due ∷ poll_answered (length d.progress.polls) (some j) ∷ time_elapsed ∷ [])
            d)
awaited_job-IsListed d j done r v c h =
    let w = Arrives-IsSound d r in
    let n : is_set d.active_job_id ≡ true = subst (λ x. IsAbout x d.active_job_id) v w.about in
    let t : d.progress.job_id ≡ d.active_job_id =
      w.tracked ∙ ap (λ x. followed x d.active_job_id) v in
    let (id, i) = set_some d.active_job_id n in
    elim (open_or_polled d.progress d.active_job_id (w.alive.live (rw t n)) t n c) [
      | inl polled ↦ inr (poll-IsListed d j id v polled w.tracked (t ∙ i) h n)
      | inr o ↦ inl (frame-IsListed d j id done v (o.0 ∙ i) w.tracked h n)
    ]
