-- ===== src/Witnesses/Client.antt =====
-- The session, the list of batches and the products of the client.
use csv_product_uploader.Prelude.{
  Bool, true, false, List, [], ◌∷◌, All, Option, none, some, String, str_eq, eq_iff, ◌≡◌, refl,
  arith, ◌↔◌,
}
use csv_product_uploader.Js.Number.{of_ℕ}
use csv_product_uploader.Js.Text.{codes}
use csv_product_uploader.Server.Products.{Product, Condition, of_batch, SortBy, SortOrder, page_of}
use csv_product_uploader.Server.Upload.Service.{new_batch}
use csv_product_uploader.Client.Session.{
  DecodedToken, Storage, signed_out, signed_in, session, handle_login, handle_logout, clear_session,
  restore,
}
use csv_product_uploader.Client.Session.Restore.{handle_login-restore}
use csv_product_uploader.Client.Batches.{
  BatchesData, batches_loaded, mounted, batches_step, no_batches, HasWork, ReachesBatches-polling,
}
use csv_product_uploader.Client.Batches
use csv_product_uploader.Client.Products.{
  ProductsData, ProductsRequest, page_changed, batch_changed, products_step, initial_data,
  default_filters, query_of,
}
use csv_product_uploader.Client.Products.Requests.{
  started, stepped, IsCurrent, ReachesProducts-IsCurrent,
}
use csv_product_uploader.Client.Products.Served.{page_of-query_of}

abbrev storage : Storage
storage = record { token = none; old_token = none; old_user_id = some "u0" }

abbrev claims : DecodedToken
claims = record { sub = "u1"; user_id = none; exp = 100 }

abbrev decode : String → Option DecodedToken
decode t = some claims

handle_login-restore_example :
    (restore decode 5 (signed_out, (handle_login false (session "t1" "u1") (signed_out, storage)).1)
      ≡ (signed_in "t1" "u1", (handle_login false (session "t1" "u1") (signed_out, storage)).1))
    × (restore decode 5
          (handle_logout (handle_login false (session "t1" "u1") (signed_out, storage)))
        ≡ (signed_out, clear_session storage))
handle_login-restore_example =
    handle_login-restore decode 5 "t1" "u1" claims signed_out storage refl refl refl refl refl
      (omega arith)

abbrev listed : BatchesData
listed = batches_step true (batches_loaded (new_batch "b1" "milk.csv" none 5 ∷ [])) no_batches

ReachesBatches-polling_example : (listed.polling ≡ true) ↔ ((true ≡ true) × HasWork listed.batches)
ReachesBatches-polling_example = ReachesBatches-polling true listed (
    Batches.stepped (batches_loaded (new_batch "b1" "milk.csv" none 5 ∷ [])) no_batches
      Batches.started)

abbrev second_page : ProductsData
second_page =
    products_step true (page_changed 2)
      (products_step true (batch_changed (some "b1")) initial_data)

ReachesProducts-IsCurrent_example : IsCurrent second_page
ReachesProducts-IsCurrent_example = ReachesProducts-IsCurrent second_page (
    stepped (page_changed 2) (products_step true (batch_changed (some "b1")) initial_data)
      (started (some "b1")))

abbrev holds : Condition → Product → Bool
holds (of_batch b) p = str_eq p.upload_batch_id b
holds _ p = true

holds_batch : (b : String) (p : Product) → holds (of_batch b) p ≡ true → p.upload_batch_id ≡ b
holds_batch b p h = ground (arith, eq_iff p.upload_batch_id b)

abbrev in_order : SortBy → SortOrder → List Product → List Product
in_order c d l = l

abbrev product : String → Product
product b = record {
  id = "p1";
  name = codes "Milk";
  price = of_ℕ 2;
  expiration_date = 7;
  upload_batch_id = b;
  user_id = none;
  created_at = 5;
  updated_at = 5;
}

abbrev request : ProductsRequest
request = record { filters = default_filters; batch_id = some "b1" }

page_of-query_of_example :
    All
      (λ p. p.upload_batch_id ≡ "b1")
      (page_of holds in_order (query_of request) (product "b2" ∷ product "b1" ∷ []))
page_of-query_of_example =
    page_of-query_of holds in_order request "b1" (product "b2" ∷ product "b1" ∷ []) holds_batch
      (λ c d P l a. a) refl refl
