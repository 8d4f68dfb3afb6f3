-- ===== src/Client/Products/Requests.antt =====
-- hooks/useProductsData.ts: the requests that the hook makes.
use csv_product_uploader.Prelude.{Bool, true, false, List, [], ◌∷◌, Option, String, ◌≡◌, refl}
use csv_product_uploader.Server.Products.{Pagination, ProductWithRates}
use csv_product_uploader.Client.Products.{
  ProductFilters, ProductsRequest, ProductsData, initial_data, load, set_filters, updated,
  ProductsEvent, batch_changed, filters_updated, page_changed, sort_updated, products_refreshed,
  products_loaded, products_failed, change, products_step,
}

pub data ReachesProducts : ProductsData → Type 0 where
  -- The effect of the first rendering.
  started :
      (b : Option String) → ReachesProducts (products_step true (batch_changed b) initial_data)
  stepped :
      (e : ProductsEvent) (d : ProductsData)
      → ReachesProducts d
      → ReachesProducts (products_step true e d)

abbrev request_of : ProductsData → ProductsRequest
request_of d = record { filters = d.filters; batch_id = d.batch_id }

-- What the newest request asks for is what the filters say.
pub record IsCurrent (d : ProductsData) : Type 0 where
  pub earlier : List ProductsRequest
  pub newest : d.requests ≡ record { filters = d.filters; batch_id = d.batch_id } ∷ earlier

load-IsCurrent :
    (f : ProductFilters) (b : Option String) (d : ProductsData)
    → IsCurrent (load true f b (record d { filters = f; batch_id = b }))
unfolding load
load-IsCurrent f b d = record { earlier = d.requests; newest = refl }

kept :
    (d : ProductsData) (ps : List ProductWithRates) (p : Pagination) (e : Option String) (l : Bool)
    → IsCurrent d
    → IsCurrent (record d { products = ps; pagination = p; error = e; loading = l })
kept d ps p e l c = record { earlier = c.earlier; newest = c.newest }

step-IsCurrent :
    (e : ProductsEvent) (d : ProductsData) → IsCurrent d → IsCurrent (products_step true e d)
unfolding products_step change set_filters updated load
step-IsCurrent (batch_changed b) d c = load-IsCurrent d.filters b d
step-IsCurrent (filters_updated u) d c = load-IsCurrent (updated u d.filters) d.batch_id d
step-IsCurrent (page_changed n) d c = load-IsCurrent (record d.filters { page = n }) d.batch_id d
step-IsCurrent (sort_updated by order) d c =
    load-IsCurrent (record d.filters { sort_by = by; sort_order = order; page = 1 }) d.batch_id d
step-IsCurrent products_refreshed d c = load-IsCurrent d.filters d.batch_id d
step-IsCurrent (products_loaded ps p) d c = kept d ps p d.error false c
step-IsCurrent (products_failed m) d c = kept d d.products d.pagination _ false c

-- In every state that the events of a user with a token lead to, the newest request asks the server
-- for exactly the filters and the batch that the hook holds, so that no change of them goes without
-- a request.
pub ReachesProducts-IsCurrent : (d : ProductsData) → ReachesProducts d → IsCurrent d
unfolding products_step change load
ReachesProducts-IsCurrent _ (started b) = record { earlier = []; newest = refl }
ReachesProducts-IsCurrent _ (stepped e d r) = step-IsCurrent e d (ReachesProducts-IsCurrent d r)
