-- ===== src/GoClient/Table.antt =====
-- components/ProductTable.tsx and components/FilterPanel.tsx of the Go pipeline's client: what the
-- table shows of an answer, and what its controls ask the dashboard for. Prices are kept in cents.
pub mod Pages
pub mod Search
use csv_product_uploader.Prelude.{
  ℕ, suc, ◌+◌, ◌-◌, ◌*◌, min, max, ◌==◌, Bool, true, false, ◌&&◌, not, if◌then◌else◌, List, [], ◌∷◌,
  map, length, Option, none, some, String, str_eq,
}
use csv_product_uploader.Server.Entities.{or_null}
use csv_product_uploader.GoClient.Products.{
  CatalogProduct, SortColumn, name, price, expiration, Direction, asc, desc, JobFilters,
  PaginationInfo, equal_columns, equal_directions,
}
use csv_product_uploader.GoClient.Dashboard.{
  Action, sort_chosen, page_chosen, limit_chosen, filter_chosen,
}

-- `handleSort`
unfoldable pub sort_pressed : SortColumn → JobFilters → Action
sort_pressed column f =
    sort_chosen column
      (if equal_columns f.sort_by column && equal_directions f.sort_order asc then desc else asc)

-- The arrows of `SortHeader`: none if the table is not sorted by the column.
abbrev pub arrow : SortColumn → JobFilters → Option Direction
arrow column f = if equal_columns f.sort_by column then some f.sort_order else none

-- `start` and `end`; a page is at least 1.
unfoldable pub first_row : PaginationInfo → ℕ → ℕ
first_row p limit = if p.total == 0 then 0 else min ((p.page - 1) * limit + 1) p.total

unfoldable pub last_row : PaginationInfo → ℕ → ℕ
last_row p limit = min (p.page * limit) p.total

pub data Turn : Type 0 where
  to_first to_previous to_next to_last : Turn

-- The page that a button asks for, unless it is disabled.
unfoldable pub turn : Turn → PaginationInfo → Option ℕ
turn to_first p = if p.page == 1 then none else some 1
turn to_previous p = if p.page == 1 then none else some (p.page - 1)
turn to_next p = if p.page == p.total_pages then none else some (p.page + 1)
turn to_last p = if p.page == p.total_pages then none else some p.total_pages

pub record CatalogRow : Type 0 where
  pub key : String × String
  pub name : String
  pub price_cents : ℕ
  pub currency : String
  pub expiration_date : Option String

unfoldable pub catalog_row : CatalogProduct → CatalogRow
catalog_row p = record {
  key = (p.merchant_id, p.product_id);
  name = p.name;
  price_cents = p.price_cents;
  currency = p.currency;
  expiration_date = or_null p.expiration_date;
}

-- `tableBody`
pub data CatalogBody : Type 0 where
  skeleton_rows : ℕ → CatalogBody
  no_match : CatalogBody
  catalog_rows : List CatalogRow → CatalogBody

unfoldable pub catalog_body : List CatalogProduct → Bool → CatalogBody
catalog_body ps loading =
    if loading
    then skeleton_rows 15
    else if length ps == 0
    then no_match
    else catalog_rows (map catalog_row ps)

-- `footer`: '… products · …–…' and 'Page … of …'
pub record Footer : Type 0 where
  pub total : ℕ
  pub noun : String
  pub first : ℕ
  pub last : ℕ
  pub page : ℕ
  pub pages : ℕ

unfoldable pub footer : PaginationInfo → ℕ → Footer
footer p limit = record {
  total = p.total;
  noun = if p.total == 1 then "product" else "products";
  first = first_row p limit;
  last = last_row p limit;
  page = p.page;
  pages = if p.total_pages == 0 then 1 else p.total_pages;
}

-- `filters.filterName || ""`
abbrev pub search_text : Option String → String
search_text none = ""
search_text (some s) = s

-- The timer of `FilterPanel`, 300 ms after the last key: the filter that it asks for, if it differs.
unfoldable pub search_due : String → Option String → Option Action
search_due typed filter_name =
    if str_eq typed (search_text filter_name)
    then none
    else some (filter_chosen (or_null (some typed)))
