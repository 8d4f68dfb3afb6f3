-- ===== src/GoClient/Screens/Rows.antt =====
-- components/ImportList.tsx with pages/Dashboard.tsx of the Go pipeline's client: where the buttons
-- lead.
use csv_product_uploader.Prelude.{false, some, String, str_eq, ◌≡◌, refl, ap}
use csv_product_uploader.GoClient.Progress.Alive.{set_job_id-job_id}
use csv_product_uploader.GoClient.Dashboard.{
  ImportDashboard, rerender, act, dispatch, products_screen, processing_screen, report_screen, show,
}
use csv_product_uploader.GoClient.Products.Latest.{set_query-query}
use csv_product_uploader.GoClient.Screens.{
  RowButton, view_products, view_progress, view_report, pressed,
}

-- The screen of a button's job, with the job that the hook behind the screen asks for.
abbrev pub Leads : RowButton → String → ImportDashboard → Type 0
Leads view_products id d =
    (show d ≡ products_screen id d.catalog d.filters)
    × (d.catalog.query.job_id ≡ some id)
    × (d.catalog.query.page ≡ 1)
Leads view_progress id d =
    (show d ≡ processing_screen d.progress.job d.progress.is_complete)
    × (d.progress.job_id ≡ some id)
Leads view_report id d = show d ≡ report_screen id

-- Whatever the state, a button of a job's row leads to its screen for that very job: the first page
-- of its products is asked for, its progress is followed, or its report is shown. Asked is that the
-- job's id is not empty.
pub pressed-Leads :
    (b : RowButton) (id : String) (d : ImportDashboard)
    → str_eq id "" ≡ false
    → Leads b id (dispatch (pressed b id) d)
unfolding dispatch act rerender show
pressed-Leads view_products id d h =
    let asks =
      set_query-query (record { job_id = some id; filters = d.filters; page = 1 }) d.catalog in
    (rw h refl, ap (λ q. q.job_id) asks, ap (λ q. q.page) asks)
pressed-Leads view_progress id d h = (refl, set_job_id-job_id (some id) d.progress)
pressed-Leads view_report id d h = rw h refl
