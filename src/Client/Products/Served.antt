-- ===== src/Client/Products/Served.antt =====
-- `fetchProducts` of services/api.ts with `findAll` of the server's products/products.service.ts.
use csv_product_uploader.Prelude.{Bool, true, false, List, All, some, String, str_eq, ◌≡◌, arith}
use csv_product_uploader.Server.Entities.{or_null}
use csv_product_uploader.Server.Products.{
  Product, Condition, name_condition, defined_condition, text_condition, price_from, price_to,
  expires_from, expires_to, of_batch, conditions, meets, SortBy, SortOrder, found, page_of,
}
use csv_product_uploader.Server.Products.Conversion.{select-meets, All-take, All-drop, meets-append}
use csv_product_uploader.Client.Products.{ProductsRequest, query_of}

module _ (holds : Condition → Product → Bool)
    (order_by : SortBy → SortOrder → List Product → List Product) where
  meets-of_batch :
      (r : ProductsRequest) (b : String) (p : Product)
      → r.batch_id ≡ some b
      → str_eq b "" ≡ false
      → meets holds order_by (conditions (query_of r)) p ≡ true
      → holds (of_batch b) p ≡ true
  unfolding conditions query_of meets
  meets-of_batch r b p e h =
      rw (e, h, h)
        λ m.
          let m1 = meets-append holds order_by (name_condition r.filters.filter_name) _ p m in
          let m2 =
            meets-append holds order_by (defined_condition price_from r.filters.price_min) _ p m1 in
          let m3 =
            meets-append holds order_by (defined_condition price_to r.filters.price_max) _ p m2 in
          let m4 =
            meets-append holds order_by
              (text_condition expires_from (or_null (or_null r.filters.expiration_from))) _ p m3 in
          let m5 =
            meets-append holds order_by
              (text_condition expires_to (or_null (or_null r.filters.expiration_to))) _ p m4 in
          ground (arith, m5)

  -- A request of the client about a batch is answered with a page of that batch's products only,
  -- whatever its other filters are. Asked is that the id is not empty, and of the database that a row
  -- which meets the condition on the batch is of that batch and that ordering adds no rows.
  pub page_of-query_of :
      (r : ProductsRequest) (b : String) (stored : List Product)
      (holds_batch : (c : String) (p : Product)
        → holds (of_batch c) p ≡ true
        → p.upload_batch_id ≡ c)
      (ordered : (c : SortBy) (d : SortOrder) (P : Product → Type 0) (l : List Product)
        → All P l
        → All P (order_by c d l))
      → r.batch_id ≡ some b
      → str_eq b "" ≡ false
      → All (λ p. p.upload_batch_id ≡ b) (page_of holds order_by (query_of r) stored)
  unfolding page_of found
  page_of-query_of r b stored holds_batch ordered e h =
      let of_b = λ (p : Product). p.upload_batch_id ≡ b in
      All-take of_b _ _ (
        All-drop of_b _ _ (
          ordered _ _ of_b _ (
            select-meets of_b (meets holds order_by (conditions (query_of r))) stored
              (λ p m. holds_batch b p (meets-of_batch r b p e h m)))))
