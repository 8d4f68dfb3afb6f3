-- ===== src/GoClient/Products.antt =====
-- hooks/useProductsData.ts and `getProducts` of the Go pipeline's client: the products of a job.
pub mod Latest
use csv_product_uploader.Prelude.{
  ℕ, zero, suc, ltb, ◌==◌, Bool, true, false, ◌&&◌, not, if◌then◌else◌, List, [], ◌∷◌, ◌++◌, Option,
  none, some, String,
}
use csv_product_uploader.Client.Dashboard.{is_set, same_id}

-- `Product`
pub record CatalogProduct : Type 0 where
  pub merchant_id : String
  pub product_id : String
  pub name : String
  pub price_cents : ℕ
  pub currency : String
  pub expiration_date : Option String

-- `ProductSortBy`
pub data SortColumn : Type 0 where
  name price expiration : SortColumn

-- `SortOrder`
pub data Direction : Type 0 where
  asc desc : Direction

-- `ProductFilters`
pub record JobFilters : Type 0 where
  pub filter_name : Option String
  pub sort_by : SortColumn
  pub sort_order : Direction
  pub limit : ℕ

-- `PaginationInfo`
pub record PaginationInfo : Type 0 where
  pub page : ℕ
  pub limit : ℕ
  pub total : ℕ
  pub total_pages : ℕ

-- `EMPTY_PAGINATION`
abbrev pub empty_pagination : PaginationInfo
empty_pagination = record { page = 1; limit = 20; total = 0; total_pages = 1 }

-- What the hook is called with.
pub record CatalogQuery : Type 0 where
  pub job_id : Option String
  pub filters : JobFilters
  pub page : ℕ

pub record CatalogData : Type 0 where
  pub query : CatalogQuery
  pub products : List CatalogProduct
  pub pagination : PaginationInfo
  pub loading : Bool
  -- The queries of the requests that are not answered.
  pub requests : List CatalogQuery

abbrev pub equal_columns : SortColumn → SortColumn → Bool
equal_columns name name = true
equal_columns price price = true
equal_columns expiration expiration = true
equal_columns a b = false

abbrev pub equal_directions : Direction → Direction → Bool
equal_directions asc asc = true
equal_directions desc desc = true
equal_directions a b = false

-- The dependencies of `fetchPage` are those of the render before.
unfoldable pub same_query : CatalogQuery → CatalogQuery → Bool
same_query a b =
    same_id a.job_id b.job_id
    && a.page == b.page
    && same_id a.filters.filter_name b.filters.filter_name
    && equal_columns a.filters.sort_by b.filters.sort_by
    && equal_directions a.filters.sort_order b.filters.sort_order
    && a.filters.limit == b.filters.limit

-- `fetchPage`, up to its request.
unfoldable pub fetch_page : CatalogData → CatalogData
fetch_page d =
    if is_set d.query.job_id
    then record d { loading = true; requests = d.requests ++ d.query ∷ [] }
    else record d { products = []; pagination = empty_pagination }

-- The first effect, which runs when `fetchPage` changes.
unfoldable pub set_query : CatalogQuery → CatalogData → CatalogData
set_query q d =
    if same_query d.query q then record d { query = q } else fetch_page (record d { query = q })

-- The interval of the second effect is set.
unfoldable pub awaits_rows : CatalogData → Bool
awaits_rows d = is_set d.query.job_id && not (ltb 0 d.pagination.total)

-- A tick of the interval.
unfoldable pub tick_products : CatalogData → CatalogData
tick_products d = if awaits_rows d then fetch_page d else d

abbrev pub is_requested : ℕ → List CatalogQuery → Bool
is_requested n [] = false
is_requested zero (x ∷ xs) = true
is_requested (suc n) (x ∷ xs) = is_requested n xs

abbrev pub drop_request : ℕ → List CatalogQuery → List CatalogQuery
drop_request n [] = []
drop_request zero (x ∷ xs) = xs
drop_request (suc n) (x ∷ xs) = x ∷ drop_request n xs

abbrev pub use_products : Option (List CatalogProduct × PaginationInfo) → CatalogData → CatalogData
use_products none d = record d { products = []; pagination = empty_pagination; loading = false }
use_products (some (ps, p)) d = record d { products = ps; pagination = p; loading = false }

-- The answer to the n-th of the requests; none is an error.
unfoldable pub answer_products :
    ℕ → Option (List CatalogProduct × PaginationInfo) → CatalogData → CatalogData
answer_products n r d =
    if is_requested n d.requests
    then use_products r (record d { requests = drop_request n d.requests })
    else d
