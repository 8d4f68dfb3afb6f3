-- ===== src/Client/Table.antt =====
-- components/ProductTable.tsx: the order of a column, the range of rows and the page buttons.
use csv_product_uploader.Prelude.{
  ℕ, suc, ◌+◌, ◌-◌, ◌*◌, ◌≤◌, ◌<◌, min, ◌==◌, ==_iff, Bool, true, false, ◌&&◌, if◌then◌else◌, List,
  length, length-take, length-drop, take, drop, Option, none, some, ◌≡◌, refl, subst, arith,
}
use csv_product_uploader.Server.Entities.{ExchangeRate}
use csv_product_uploader.Server.Products.{
  Pagination, SortBy, by_name, by_price, by_expiration_date, SortOrder, ascending, descending,
  Product, Condition, GetProductsDto, find_all, page_of, found, or_default,
}

abbrev pub same_column : SortBy → SortBy → Bool
same_column by_name by_name = true
same_column by_price by_price = true
same_column by_expiration_date by_expiration_date = true
same_column a b = false

abbrev pub is_ascending : SortOrder → Bool
is_ascending ascending = true
is_ascending descending = false

-- `handleSort`
unfoldable pub new_order : SortBy → SortOrder → SortBy → SortOrder
new_order sorted_by order column =
    if same_column sorted_by column && is_ascending order then descending else ascending

-- `start` and `end`; a page is at least 1.
unfoldable pub range_start : Pagination → ℕ → ℕ
range_start p limit = min ((p.page - 1) * limit + 1) p.total

unfoldable pub range_end : Pagination → ℕ → ℕ
range_end p limit = min (p.page * limit) p.total

pub data PageButton : Type 0 where
  first_page previous_page next_page last_page : PageButton

-- The page that a button asks for, unless it is disabled.
unfoldable pub press : PageButton → Pagination → Option ℕ
press first_page p = if p.page == 1 then none else some 1
press previous_page p = if p.page == 1 then none else some (p.page - 1)
press next_page p = if p.page == p.total_pages then none else some (p.page + 1)
press last_page p = if p.page == p.total_pages then none else some p.total_pages

-- From a page that exists, every button that is not disabled leads to a page that exists.
pub press-in_range :
    (button : PageButton) (p : Pagination) (n : ℕ)
    → 1 ≤ p.page
    → p.page ≤ p.total_pages
    → press button p ≡ some n
    → (1 ≤ n) × (n ≤ p.total_pages)
unfolding press
press-in_range first_page p n h k e = ground (arith, ==_iff p.page 1)
press-in_range previous_page p n h k e = ground (arith, ==_iff p.page 1)
press-in_range next_page p n h k e = ground (arith, ==_iff p.page p.total_pages)
press-in_range last_page p n h k e = ground (arith, ==_iff p.page p.total_pages)

-- When nothing is found, the table still offers the next page, which is not there, and the last page,
-- which is page 0 and not a page that the server's query allows.
pub press-nothing_found :
    (p : Pagination)
    → p.page ≡ 1
    → p.total_pages ≡ 0
    → (press next_page p ≡ some 2) × (press last_page p ≡ some 0)
unfolding press
press-nothing_found p h k = rw (h, k) (refl, refl)

-- The rows m * l + 1 to (m + 1) * l, of t rows.
range_count :
    (m l t : ℕ)
    → 0 < min l (t - m * l)
    → min (suc m * l) t + 1 ≡ min (m * l + 1) t + min l (t - m * l)
range_count m l t h = omega (arith, h)

length-page : (l k : ℕ) (ps : List Product) → length (take l (drop k ps)) ≡ min l (length ps - k)
length-page l k ps = rw (length-take l (drop k ps), length-drop k ps) refl

module _ (holds : Condition → Product → Bool)
    (order_by : SortBy → SortOrder → List Product → List Product) where
  -- The range that the table shows for the server's answer is that of the rows of the page: if the
  -- page has a row, the numbers from the first to the last of the range are as many as the page has
  -- rows.
  pub range-length :
      (q : GetProductsDto) (stored : List Product) (rates : List ExchangeRate)
      → 1 ≤ or_default 1 q.page
      → 0 < length (page_of holds order_by q stored)
      → range_end (find_all holds order_by q stored rates).pagination (or_default 50 q.limit) + 1
        ≡ range_start (find_all holds order_by q stored rates).pagination (or_default 50 q.limit)
          + length (page_of holds order_by q stored)
  unfolding find_all page_of range_start range_end
  range-length q stored rates h k =
      let m = or_default 1 q.page - 1 in
      let l = or_default 50 q.limit in
      let ps = found holds order_by q stored in
      let e = length-page l (m * l) ps in
      let p : suc m ≡ or_default 1 q.page = omega (arith, h) in
      rw e (
        subst
          (λ (x : ℕ).
            min (x * l) (length ps) + 1 ≡ min (m * l + 1) (length ps) + min l (length ps - m * l))
          p (range_count m l (length ps) (subst (λ (n : ℕ). 0 < n) e k)))
