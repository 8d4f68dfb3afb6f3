-- ===== src/GoClient/Dashboard.antt =====
-- pages/Dashboard.tsx of the Go pipeline's client, with its four hooks. A state is what the component
-- and the hooks keep between two events, once the effects of the last one have run.
pub mod Reached
pub mod Settling
pub mod Stale
pub mod Prompt
pub mod Listing
use csv_product_uploader.Prelude.{
  ℕ, Bool, true, false, ◌&&◌, if◌then◌else◌, List, [], ◌∷◌, Option, none, some, String,
}
use csv_product_uploader.Client.Dashboard.{is_set, same_id}
use csv_product_uploader.GoClient.Jobs.{ImportJob, JobStatus, completed, is_completed_job}
use csv_product_uploader.GoClient.Progress.{
  ImportProgress, no_progress, set_job_id, Frame, receive_frame, on_error, send_poll, answer_poll,
}
use csv_product_uploader.GoClient.Uploads.{
  CsvUpload, nothing_uploaded, on_file_select, on_clear_file, on_start_upload, upload_succeeds,
  upload_fails,
}
use csv_product_uploader.GoClient.Imports.{
  ImportsData, mounted_imports, refresh, tick_imports, imports_listed, imports_failed,
}
use csv_product_uploader.GoClient.Products.{
  CatalogProduct, PaginationInfo, empty_pagination, SortColumn, Direction, name, asc, JobFilters,
  CatalogQuery, CatalogData, set_query, tick_products, answer_products,
}

-- `View`
pub data Page : Type 0 where
  list upload processing products report : Page

pub record ImportDashboard : Type 0 where
  pub view : Page
  pub active_job_id : Option String
  pub page : ℕ
  pub filters : JobFilters
  pub imports : ImportsData
  pub uploads : CsvUpload
  pub progress : ImportProgress
  pub catalog : CatalogData

-- `view === 'processing' ? activeJobId : null`
abbrev pub followed : Page → Option String → Option String
followed processing id = id
followed _ id = none

-- `view === 'products' ? activeJobId : null`
abbrev pub listed : Page → Option String → Option String
listed products id = id
listed _ id = none

abbrev pub first_filters : JobFilters
first_filters = record { filter_name = none; sort_by = name; sort_order = asc; limit = 20 }

abbrev pub first_query : CatalogQuery
first_query = record { job_id = none; filters = first_filters; page = 1 }

abbrev pub first_state : ImportDashboard
first_state = record {
  view = list;
  active_job_id = none;
  page = 1;
  filters = first_filters;
  imports = mounted_imports;
  uploads = nothing_uploaded;
  progress = no_progress;
  catalog = record {
    query = first_query;
    products = [];
    pagination = empty_pagination;
    loading = false;
    requests = [];
  };
}

-- The render after a change, with the effects of the hooks that it is passed to.
unfoldable pub rerender : ImportDashboard → ImportDashboard
rerender d = record d {
  progress = set_job_id (followed d.view d.active_job_id) d.progress;
  catalog =
      set_query
        (record { job_id = listed d.view d.active_job_id; filters = d.filters; page = d.page })
        d.catalog;
}

-- The effect on `upload.activeJobId`, which is set and has changed from `before`.
abbrev pub start_following : Option String → Option String → ImportDashboard → ImportDashboard
start_following before now d =
    if same_id before now
    then d
    else if is_set now
    then record d { active_job_id = now; view = processing }
    else d

-- `backToList`
unfoldable pub back_to_list : ImportDashboard → ImportDashboard
back_to_list d = record d { view = list; imports = refresh d.imports }

-- What the timer does for a job; the effect sets it anew whenever the job changes.
unfoldable pub settle_job : JobStatus → ImportDashboard → ImportDashboard
settle_job s d =
    if is_completed_job s then record d { page = 1; view = products } else back_to_list d

-- The timer is set in the processing view only, once there is a job and it is complete.
abbrev pub elapse : Page → Bool → Option ImportJob → ImportDashboard → ImportDashboard
elapse processing true (some j) d = settle_job j.status d
elapse _ _ _ d = d

pub data Action : Type 0 where
  -- The upload view and its request.
  file_chosen : String → Action
  file_removed upload_begun : Action
  error_set : Option String → Action
  upload_done : String → Action
  upload_failed : Option String → Action
  -- The stream, the polls and the timer.
  frame_received : Frame → Bool → Action
  stream_failed poll_due : Action
  poll_answered : ℕ → Option ImportJob → Action
  time_elapsed : Action
  -- The list of imports and the products.
  imports_due : Action
  imports_answered : List ImportJob → Action
  imports_refused : Option String → Action
  products_due : Action
  products_answered : ℕ → Option (List CatalogProduct × PaginationInfo) → Action
  -- The user's choices.
  products_chosen progress_chosen report_chosen : String → Action
  upload_chosen back_chosen : Action
  filter_chosen : Option String → Action
  sort_chosen : SortColumn → Direction → Action
  limit_chosen page_chosen : ℕ → Action

-- The handlers, up to the render that follows.
unfoldable pub act : Action → ImportDashboard → ImportDashboard
act (file_chosen f) d = record d { uploads = on_file_select f d.uploads }
act file_removed d = record d { uploads = on_clear_file d.uploads }
act upload_begun d = record d { uploads = on_start_upload d.uploads }
act (error_set m) d = record d { uploads = record d.uploads { error = m } }
act (upload_done id) d =
    let u = upload_succeeds id d.uploads in
    start_following d.uploads.active_job_id u.active_job_id (record d { uploads = u })
act (upload_failed m) d = record d { uploads = upload_fails m d.uploads }
act (frame_received f done) d = record d {
  progress = receive_frame d.progress.source f done d.progress;
}
act stream_failed d = record d { progress = on_error d.progress.source d.progress }
act poll_due d = record d { progress = send_poll d.progress }
act (poll_answered n j) d = record d { progress = answer_poll n j d.progress }
act time_elapsed d = elapse d.view d.progress.is_complete d.progress.job d
act imports_due d = record d { imports = tick_imports d.imports }
act (imports_answered js) d = record d { imports = imports_listed js d.imports }
act (imports_refused m) d = record d { imports = imports_failed m d.imports }
act products_due d = record d { catalog = tick_products d.catalog }
act (products_answered n r) d = record d { catalog = answer_products n r d.catalog }
act (products_chosen id) d = record d { active_job_id = some id; page = 1; view = products }
act (progress_chosen id) d = record d { active_job_id = some id; view = processing }
act (report_chosen id) d = record d { active_job_id = some id; view = report }
act upload_chosen d = record d { view = upload }
act back_chosen d = back_to_list d
act (filter_chosen m) d = record d { page = 1; filters = record d.filters { filter_name = m } }
act (sort_chosen by order) d = record d {
  page = 1;
  filters = record d.filters { sort_by = by; sort_order = order };
}
act (limit_chosen n) d = record d { page = 1; filters = record d.filters { limit = n } }
act (page_chosen n) d = record d { page = n }

unfoldable pub dispatch : Action → ImportDashboard → ImportDashboard
dispatch a d = rerender (act a d)

unfoldable pub dispatch_all : List Action → ImportDashboard → ImportDashboard
dispatch_all [] d = d
dispatch_all (a ∷ rest) d = dispatch_all rest (dispatch a d)

-- What is rendered, with the job it is about.
pub data Screen : Type 0 where
  upload_screen : CsvUpload → Screen
  processing_screen : Option ImportJob → Bool → Screen
  products_screen : String → CatalogData → JobFilters → Screen
  report_screen : String → Screen
  list_screen : List ImportJob → Bool → Screen
  blank : Screen

abbrev pub about_job : Option String → (String → Screen) → Screen
about_job none f = blank
about_job (some id) f = if is_set (some id) then f id else blank

abbrev pub screen_of : Page → ImportDashboard → Screen
screen_of upload d = upload_screen d.uploads
screen_of processing d = processing_screen d.progress.job d.progress.is_complete
screen_of products d = about_job d.active_job_id (λ id. products_screen id d.catalog d.filters)
screen_of report d = about_job d.active_job_id report_screen
screen_of list d = list_screen d.imports.imports d.imports.loading

unfoldable pub show : ImportDashboard → Screen
show d = screen_of d.view d
