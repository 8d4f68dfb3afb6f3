-- ===== src/GoClient/Table/Pages.antt =====
-- components/ProductTable.tsx with pages/Dashboard.tsx of the Go pipeline's client: the range of
-- rows and the page buttons.
use csv_product_uploader.Prelude.{
  ℕ, suc, ◌+◌, ◌-◌, ◌*◌, ◌≤◌, ◌<◌, min, ◌==◌, ==_iff, if◌then◌else◌, some, ◌≡◌, ap, ◌∙◌, arith,
}
use csv_product_uploader.GoClient.Products.{PaginationInfo}
use csv_product_uploader.GoClient.Dashboard.{
  ImportDashboard, listed, rerender, act, dispatch, page_chosen,
}
use csv_product_uploader.GoClient.Products.Latest.{set_query-query}
use csv_product_uploader.GoClient.Table.{
  Turn, to_first, to_previous, to_next, to_last, turn, first_row, last_row,
}

turn_bounds :
    (b : Turn) (p : PaginationInfo) (n : ℕ)
    → 1 ≤ p.page
    → p.page ≤ p.total_pages
    → turn b p ≡ some n
    → (1 ≤ n) × (n ≤ p.total_pages)
unfolding turn
turn_bounds to_first p n h k e = ground (arith, ==_iff p.page 1)
turn_bounds to_previous p n h k e = ground (arith, ==_iff p.page 1)
turn_bounds to_next p n h k e = ground (arith, ==_iff p.page p.total_pages)
turn_bounds to_last p n h k e = ground (arith, ==_iff p.page p.total_pages)

-- From a page that exists, a button that is not disabled makes the dashboard ask for another page that
-- exists, of the same job and with the same filters.
pub turn-dispatch :
    (b : Turn) (p : PaginationInfo) (n : ℕ) (d : ImportDashboard)
    → 1 ≤ p.page
    → p.page ≤ p.total_pages
    → turn b p ≡ some n
    → (1 ≤ n)
      × (n ≤ p.total_pages)
      × ((dispatch (page_chosen n) d).catalog.query
          ≡ record { job_id = listed d.view d.active_job_id; filters = d.filters; page = n })
unfolding dispatch act rerender
turn-dispatch b p n d h k e =
    let (low, high) = turn_bounds b p n h k e in
    (
      low,
      high,
      set_query-query
          (record { job_id = listed d.view d.active_job_id; filters = d.filters; page = n })
          d.catalog,
    )

starts : (k t : ℕ) → k < t → (if t == 0 then 0 else min (k + 1) t) ≡ k + 1
starts k t h = ground arith

ends : (m l t : ℕ) → m * l < t → min (suc m * l) t ≡ m * l + min l (t - m * l)
ends m l t h = omega arith

-- The range of an answer with rows on its page: it starts behind the rows of the pages before, and
-- is as long as what is left, up to the limit.
pub rows_range :
    (p : PaginationInfo) (m limit : ℕ)
    → p.page ≡ suc m
    → m * limit < p.total
    → (first_row p limit ≡ m * limit + 1)
      × (last_row p limit ≡ m * limit + min limit (p.total - m * limit))
unfolding first_row last_row
rows_range p m limit e h =
    let before : p.page - 1 ≡ m = omega arith in
    (
      ap (λ (k : ℕ). if p.total == 0 then 0 else min (k * limit + 1) p.total) before
          ∙ starts (m * limit) p.total h,
      ap (λ (k : ℕ). min (k * limit) p.total) e ∙ ends m limit p.total h,
    )
