-- ===== src/Witnesses/Table.antt =====
-- The product table of the client.
use csv_product_uploader.Prelude.{
  ◌+◌, Bool, true, List, [], ◌∷◌, length, none, some, ◌≡◌, refl, arith,
}
use csv_product_uploader.Js.Number.{of_ℕ}
use csv_product_uploader.Js.Text.{codes}
use csv_product_uploader.Server.Products.{
  Product, Condition, GetProductsDto, SortBy, SortOrder, find_all, page_of, found, conditions,
  meets,
}
use csv_product_uploader.Client.Table.{range_start, range_end, range-length}

abbrev holds : Condition → Product → Bool
holds c p = true

abbrev in_order : SortBy → SortOrder → List Product → List Product
in_order c d l = l

abbrev product : Product
product = record {
  id = "p1";
  name = codes "Milk";
  price = of_ℕ 2;
  expiration_date = 7;
  upload_batch_id = "b1";
  user_id = none;
  created_at = 5;
  updated_at = 5;
}

-- The second page, of one row.
abbrev query : GetProductsDto
query = record {
  page = some 2;
  limit = some 1;
  sort_by = none;
  sort_order = none;
  filter_name = none;
  price_min = none;
  price_max = none;
  expiration_from = none;
  expiration_to = none;
  batch_id = none;
  user_id = none;
}

one_row : length (page_of holds in_order query (product ∷ product ∷ [])) ≡ 1
unfolding page_of found conditions meets
one_row = refl

range-length_example :
    range_end (find_all holds in_order query (product ∷ product ∷ []) []).pagination 1 + 1
    ≡ range_start (find_all holds in_order query (product ∷ product ∷ []) []).pagination 1
      + length (page_of holds in_order query (product ∷ product ∷ []))
range-length_example =
    range-length holds in_order query (product ∷ product ∷ []) [] (omega arith)
      (omega (arith, one_row))
