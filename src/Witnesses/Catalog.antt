-- ===== src/Witnesses/Catalog.antt =====
-- The products of a job in the client of the Go pipeline.
use csv_product_uploader.Prelude.{[], ◌∷◌, none, some, ◌≡◌, refl}
use csv_product_uploader.GoClient.Products.{
  CatalogProduct, PaginationInfo, CatalogQuery, same_query, fetch_page, set_query, awaits_rows,
  tick_products, answer_products,
}
use csv_product_uploader.GoClient.Products.Latest.{Answer, Shows}
use csv_product_uploader.GoClient.Dashboard
use csv_product_uploader.GoClient.Dashboard.{
  ImportDashboard, first_state, first_query, products_chosen, products_due, products_answered,
  page_chosen, act, rerender, dispatch,
}
use csv_product_uploader.GoClient.Dashboard.Listing.{Lists, started, stepped, products_view-Shows}

abbrev milk : CatalogProduct
milk = record {
  merchant_id = "m1";
  product_id = "p1";
  name = "Milk";
  price_cents = 125;
  currency = "USD";
  expiration_date = none;
}

abbrev first_page : CatalogQuery
first_page = record first_query { job_id = some "j1" }

abbrev second_page : CatalogQuery
second_page = record first_query { job_id = some "j1"; page = 2 }

abbrev one_of_two : PaginationInfo
one_of_two = record { page = 2; limit = 20; total = 21; total_pages = 2 }

abbrev last_rows : Answer
last_rows = some (milk ∷ [], one_of_two)

-- The server has one product on the second page and fails on all other queries.
data Says : CatalogQuery → Answer → Type 0 where
  second_said : Says second_page last_rows
  first_failed : Says first_page none

abbrev chosen : ImportDashboard
chosen = dispatch (products_chosen "j1") first_state

-- The first page is opened and polled, then the second is; its answer comes last.
abbrev opened : ImportDashboard
opened = dispatch (page_chosen 2) (dispatch products_due chosen)

abbrev one_answered : ImportDashboard
one_answered = dispatch (products_answered 0 none) opened

abbrev two_answered : ImportDashboard
two_answered = dispatch (products_answered 0 none) one_answered

abbrev all_answered : ImportDashboard
all_answered = dispatch (products_answered 0 last_rows) two_answered

opened-Lists : Lists Says opened
opened-Lists =
    stepped (page_chosen 2) _ tt tt (
      stepped products_due chosen tt tt
        (stepped (products_chosen "j1") first_state refl tt started))

one_answered-Lists : Lists Says one_answered
unfolding dispatch act rerender set_query tick_products fetch_page same_query awaits_rows
    answer_products
one_answered-Lists =
    stepped (products_answered 0 none) opened tt
      (refl, first_page, first_page ∷ second_page ∷ [], refl, first_failed) opened-Lists

two_answered-Lists : Lists Says two_answered
unfolding dispatch act rerender set_query tick_products fetch_page same_query awaits_rows
    answer_products
two_answered-Lists =
    stepped (products_answered 0 none) one_answered tt
      (refl, first_page, second_page ∷ [], refl, first_failed) one_answered-Lists

all_answered-Lists : Lists Says all_answered
unfolding dispatch act rerender set_query tick_products fetch_page same_query awaits_rows
    answer_products
all_answered-Lists =
    stepped (products_answered 0 last_rows) two_answered tt
      (refl, second_page, [], refl, second_said) two_answered-Lists

all_answered_view : all_answered.view ≡ Dashboard.products
unfolding dispatch act rerender
all_answered_view = refl

none_open : all_answered.catalog.requests ≡ []
unfolding dispatch act rerender set_query tick_products fetch_page same_query awaits_rows
    answer_products
none_open = refl

products_view-Shows_example :
    Shows Says all_answered.catalog
    × (all_answered.catalog.query ≡ record {
      job_id = all_answered.active_job_id;
      filters = all_answered.filters;
      page = all_answered.page;
    })
products_view-Shows_example =
    products_view-Shows Says all_answered all_answered-Lists all_answered_view none_open
