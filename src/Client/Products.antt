-- ===== src/Client/Products.antt =====
-- hooks/useProductsData.ts and `fetchProducts` of services/api.ts: the products of a batch, as the
-- filters ask for them. The requests are kept in the order in which they were made, newest first; the
-- server may answer them in any order.
pub mod Requests
pub mod Served
use csv_product_uploader.Prelude.{
  ℕ, Bool, true, false, if◌then◌else◌, List, [], ◌∷◌, Option, none, some, String, str_eq,
}
use csv_product_uploader.Js.Number.{Number}
use csv_product_uploader.Js.Text.{Text}
use csv_product_uploader.Server.Entities.{or_null}
use csv_product_uploader.Server.Products.{
  ProductWithRates, Pagination, SortBy, SortOrder, by_name, ascending, GetProductsDto,
}

-- `ProductFilters`
pub record ProductFilters : Type 0 where
  pub page : ℕ
  pub limit : ℕ
  pub sort_by : SortBy
  pub sort_order : SortOrder
  pub filter_name : Option Text
  pub price_min : Option Number
  pub price_max : Option Number
  pub expiration_from : Option String
  pub expiration_to : Option String

abbrev pub default_filters : ProductFilters
default_filters = record {
  page = 1;
  limit = 50;
  sort_by = by_name;
  sort_order = ascending;
  filter_name = none;
  price_min = none;
  price_max = none;
  expiration_from = none;
  expiration_to = none;
}

-- A request: the filters, with the batch.
pub record ProductsRequest : Type 0 where
  pub filters : ProductFilters
  pub batch_id : Option String

pub record ProductsData : Type 0 where
  pub products : List ProductWithRates
  pub loading : Bool
  pub error : Option String
  pub filters : ProductFilters
  pub pagination : Pagination
  -- The batch that the hook is called with.
  pub batch_id : Option String
  pub requests : List ProductsRequest

abbrev pub initial_data : ProductsData
initial_data = record {
  products = [];
  loading = false;
  error = none;
  filters = default_filters;
  pagination = record { page = 1; limit = 50; total = 0; total_pages = 0 };
  batch_id = none;
  requests = [];
}

-- `load`, up to its request.
unfoldable pub load : Bool → ProductFilters → Option String → ProductsData → ProductsData
load is_authenticated f b d =
    if is_authenticated
    then record d {
      loading = true;
      error = none;
      requests = record { filters = f; batch_id = b } ∷ d.requests;
    }
    else record d { products = []; loading = false }

-- `setFilters(…); load(…)`
unfoldable pub set_filters : ProductFilters → ProductsData → ProductsData
set_filters f d = load true f d.batch_id (record d { filters = f })

-- What the filter form changes: the filters, and the page if it is given.
pub record FilterUpdate : Type 0 where
  pub page : Option ℕ
  pub change : ProductFilters → ProductFilters

abbrev pub page_or_first : Option ℕ → ℕ
page_or_first none = 1
page_or_first (some n) = n

-- `{ ...filters, ...updates, page: updates.page ?? 1 }`
unfoldable pub updated : FilterUpdate → ProductFilters → ProductFilters
updated u f = record (u.change f) { page = page_or_first u.page }

pub data ProductsEvent : Type 0 where
  -- The hook is called with a batch, which is another one than before, or for the first time.
  batch_changed : Option String → ProductsEvent
  filters_updated : FilterUpdate → ProductsEvent
  page_changed : ℕ → ProductsEvent
  sort_updated : SortBy → SortOrder → ProductsEvent
  products_refreshed : ProductsEvent
  -- The answer to some request.
  products_loaded : List ProductWithRates → Pagination → ProductsEvent
  products_failed : Option String → ProductsEvent

abbrev pub products_message : Option String → String
products_message none = "Failed to load products"
products_message (some m) = m

-- The handlers of a user with a token.
unfoldable pub change : ProductsEvent → ProductsData → ProductsData
change (batch_changed b) d = load true d.filters b (record d { batch_id = b })
change (filters_updated u) d = set_filters (updated u d.filters) d
change (page_changed n) d = set_filters (record d.filters { page = n }) d
change (sort_updated by order) d =
    set_filters (record d.filters { sort_by = by; sort_order = order; page = 1 }) d
change products_refreshed d = load true d.filters d.batch_id d
change (products_loaded ps p) d = record d { products = ps; pagination = p; loading = false }
change (products_failed m) d = record d { error = some (products_message m); loading = false }

-- Without a token the handlers return at once; the effect clears the products.
unfoldable pub products_step : Bool → ProductsEvent → ProductsData → ProductsData
products_step true e d = change e d
products_step false (batch_changed b) d = record d { products = []; batch_id = b }
products_step false e d = d

-- The parameters that `fetchProducts` sends, as the server's query reads them.
unfoldable pub query_of : ProductsRequest → GetProductsDto
query_of r = record {
  page = some r.filters.page;
  limit = some r.filters.limit;
  sort_by = some r.filters.sort_by;
  sort_order = some r.filters.sort_order;
  filter_name = r.filters.filter_name;
  price_min = r.filters.price_min;
  price_max = r.filters.price_max;
  expiration_from = or_null r.filters.expiration_from;
  expiration_to = or_null r.filters.expiration_to;
  batch_id = or_null r.batch_id;
  user_id = none;
}
