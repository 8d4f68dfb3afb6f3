-- ===== src/GoClient/Dashboard/Listing.antt =====
-- pages/Dashboard.tsx with hooks/useProductsData.ts of the Go pipeline's client: whose products the
-- products view shows.
use csv_product_uploader.Prelude.{
  zero, Bool, true, false, List, [], ◌∷◌, Option, none, some, String, ◌≡◌, refl, sym, ap, ◌∙◌,
  subst, arith, Bool-cases, inl, inr,
}
use csv_product_uploader.Client.Dashboard.{is_set, same_id}
use csv_product_uploader.GoClient.Jobs.{ImportJob, JobStatus, is_completed_job}
use csv_product_uploader.GoClient.Products.{CatalogQuery}
use csv_product_uploader.GoClient.Products.Latest
use csv_product_uploader.GoClient.Products.Latest.{
  Answer, Advances, queried, ticked, answered, Shows, Advances-Shows, set_query-query,
}
use csv_product_uploader.GoClient.Dashboard.{
  Page, list, upload, processing, products, report, ImportDashboard, listed, first_state, rerender,
  start_following, back_to_list, settle_job, elapse, Action, file_chosen, file_removed,
  upload_begun, error_set, upload_done, upload_failed, frame_received, stream_failed, poll_due,
  poll_answered, time_elapsed, imports_due, imports_answered, imports_refused, products_due,
  products_answered, products_chosen, progress_chosen, report_chosen, upload_chosen, back_chosen,
  filter_chosen, sort_chosen, limit_chosen, page_chosen, act, dispatch,
}
use csv_product_uploader.GoClient.Dashboard.Reached
use csv_product_uploader.GoClient.Dashboard.Reached.{
  IsAbout, Arrives, IsServed, IsSound, Arrives-IsSound,
}

-- An answer to a request for products is the answer to the oldest that is open.
abbrev pub IsNext : (CatalogQuery → Answer → Type 0) → ImportDashboard → Action → Type 0
IsNext Says d (products_answered n r) =
    (n ≡ zero)
    × (q : CatalogQuery) × (rest : List CatalogQuery) × (d.catalog.requests ≡ q ∷ rest)
    × Says q r
IsNext Says d _ = Unit

pub data Lists (Says : CatalogQuery → Answer → Type 0) : ImportDashboard → Type 0 where
  started : Lists Says first_state
  stepped :
      (a : Action) (d : ImportDashboard)
      → IsServed a
      → IsNext Says d a
      → Lists Says d
      → Lists Says (dispatch a d)

-- The query of the dashboard.
abbrev pub query_of : ImportDashboard → CatalogQuery
query_of d = record { job_id = listed d.view d.active_job_id; filters = d.filters; page = d.page }

settle_job-catalog : (s : JobStatus) (d : ImportDashboard) → (settle_job s d).catalog ≡ d.catalog
unfolding settle_job back_to_list
settle_job-catalog s d = elim (Bool-cases (is_completed_job s)) [
  | inl well ↦ rw well refl
  | inr badly ↦ rw badly refl
]

elapse-catalog :
    (v : Page) (c : Bool) (j : Option ImportJob) (d : ImportDashboard)
    → (elapse v c j d).catalog ≡ d.catalog
elapse-catalog processing true (some j) d = settle_job-catalog j.status d
elapse-catalog processing true none d = refl
elapse-catalog processing false j d = refl
elapse-catalog list c j d = refl
elapse-catalog upload c j d = refl
elapse-catalog products c j d = refl
elapse-catalog report c j d = refl

start_following-catalog :
    (before now : Option String) (d : ImportDashboard)
    → (start_following before now d).catalog ≡ d.catalog
start_following-catalog before now d = elim (Bool-cases (same_id before now)) [
  | inl same ↦ rw same refl
  | inr changed ↦ elim (Bool-cases (is_set now)) [
    | inl named ↦ rw (changed, named) refl
    | inr empty ↦ rw (changed, empty) refl
  ]
]

module _ (Says : CatalogQuery → Answer → Type 0) where
  act-Advances :
      (a : Action) (d : ImportDashboard)
      → IsNext Says d a
      → Advances Says d.catalog
      → Advances Says (act a d).catalog
  unfolding act back_to_list
  act-Advances (file_chosen f) d h o = o
  act-Advances file_removed d h o = o
  act-Advances upload_begun d h o = o
  act-Advances (error_set m) d h o = o
  act-Advances (upload_done id) d h o =
      subst (Advances Says) (sym (start_following-catalog d.uploads.active_job_id _ _)) o
  act-Advances (upload_failed m) d h o = o
  act-Advances (frame_received f done) d h o = o
  act-Advances stream_failed d h o = o
  act-Advances poll_due d h o = o
  act-Advances (poll_answered n j) d h o = o
  act-Advances time_elapsed d h o =
      subst (Advances Says) (sym (elapse-catalog d.view d.progress.is_complete d.progress.job d)) o
  act-Advances imports_due d h o = o
  act-Advances (imports_answered js) d h o = o
  act-Advances (imports_refused m) d h o = o
  act-Advances products_due d h o = ticked d.catalog o
  act-Advances (products_answered n r) d (first, q, rest, e, s) o =
      rw first (answered q rest r d.catalog e s o)
  act-Advances (products_chosen id) d h o = o
  act-Advances (progress_chosen id) d h o = o
  act-Advances (report_chosen id) d h o = o
  act-Advances upload_chosen d h o = o
  act-Advances back_chosen d h o = o
  act-Advances (filter_chosen m) d h o = o
  act-Advances (sort_chosen by order) d h o = o
  act-Advances (limit_chosen n) d h o = o
  act-Advances (page_chosen n) d h o = o

  Lists-Arrives : (d : ImportDashboard) → Lists Says d → Arrives d
  Lists-Arrives _ started = Reached.started
  Lists-Arrives _ (stepped a d s n r) = Reached.stepped a d s (Lists-Arrives d r)

  Lists-Advances : (d : ImportDashboard) → Lists Says d → Advances Says d.catalog
  unfolding dispatch rerender
  Lists-Advances _ started = Latest.started first_state.catalog refl refl
  Lists-Advances _ (stepped a d s n r) =
      queried (query_of (act a d)) (act a d).catalog (act-Advances a d n (Lists-Advances d r))

  Lists-query : (d : ImportDashboard) → Lists Says d → d.catalog.query ≡ query_of d
  unfolding dispatch rerender
  Lists-query _ started = refl
  Lists-query _ (stepped a d s n r) = set_query-query (query_of (act a d)) (act a d).catalog

listed_set :
    (v : Page) (id : Option String) → v ≡ products → IsAbout v id → is_set (listed v id) ≡ true
listed_set products id e h = h
listed_set list id e h = absurd (ground arith)
listed_set upload id e h = absurd (ground arith)
listed_set processing id e h = absurd (ground arith)
listed_set report id e h = absurd (ground arith)

-- In every state that the events lead to in which the products view is open and no request for
-- products is open, as long as the server answers these requests in the order in which they were
-- sent: the table shows an answer to the query for the active job, with the filters and the page of
-- the dashboard, whatever was asked for before; after an error there are no products. Asked is that
-- the ids of jobs are not empty and that no event of the stream carries `null`.
pub products_view-Shows :
    (Says : CatalogQuery → Answer → Type 0) (d : ImportDashboard)
    → Lists Says d
    → d.view ≡ products
    → d.catalog.requests ≡ []
    → Shows Says d.catalog
      × (d.catalog.query ≡ record { job_id = d.active_job_id; filters = d.filters; page = d.page })
products_view-Shows Says d l v e =
    let q = Lists-query Says d l in
    let w = Arrives-IsSound d (Lists-Arrives Says d l) in
    let named = listed_set d.view d.active_job_id v w.about in
    (
      Advances-Shows Says d.catalog (Lists-Advances Says d l)
          (subst (λ x. is_set x.job_id ≡ true) (sym q) named) e,
      q
          ∙ ap
              (λ (u : Page). record {
                job_id = listed u d.active_job_id;
                filters = d.filters;
                page = d.page;
              })
              v,
    )
