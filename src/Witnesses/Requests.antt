-- ===== src/Witnesses/Requests.antt =====
-- Requests for products, and tokens; the database and the tokens are small functions here.
use mathlib.Core.List.{Memᴰ}
use csv_product_uploader.Prelude.{
  ℕ, ◌<◌, select, Bool, true, false, if◌then◌else◌, List, [], ◌∷◌, map, All, Option, none, some,
  String, str_eq, eq_iff, ◌≡◌, refl, ap, arith, ◌↔◌, ◌≢◌,
}
use csv_product_uploader.Js.Number.{of_ℕ}
use csv_product_uploader.Js.Text.{Text, codes, text_eq}
use csv_product_uploader.Server.Entities.{ExchangeRate}
use csv_product_uploader.Server.Products.{
  Product, GetProductsDto, Condition, of_user, of_batch, SortBy, by_expiration_date, SortOrder,
  ascending, meets, conditions, found, page_of, find_all, find_own,
}
use csv_product_uploader.Server.Products.Paging.{IsAscending, pages_from, find_all_pages}
use csv_product_uploader.Server.Products.Conversion.{
  with_own_rates, find_all-with_own_rates, find_own-own,
}
use csv_product_uploader.Server.Auth.{admitted, can_activate, find_user}
use csv_product_uploader.Server.Auth.Tokens.{IsToken, bearer, Carries, can_activate_iff}

abbrev is_owner : String → Option String → Bool
is_owner u none = false
is_owner u (some v) = str_eq v u

-- A database that reads the conditions on the user and on the batch, and keeps the order of its rows.
abbrev holds : Condition → Product → Bool
holds (of_user u) p = is_owner u p.user_id
holds (of_batch b) p = str_eq p.upload_batch_id b
holds _ p = true

abbrev in_order : SortBy → SortOrder → List Product → List Product
in_order c d l = l

is_owner-eq : (u : String) (v : Option String) → is_owner u v ≡ true → v ≡ some u
is_owner-eq u none h = absurd (ground arith)
is_owner-eq u (some v) h = ap some (ground (arith, eq_iff v u))

holds_user : (u : String) (p : Product) → holds (of_user u) p ≡ true → p.user_id ≡ some u
holds_user u p h = is_owner-eq u p.user_id h

abbrev product : String → String → Product
product id user = record {
  id = id;
  name = codes "Milk";
  price = of_ℕ 2;
  expiration_date = 7;
  upload_batch_id = "b1";
  user_id = some user;
  created_at = 5;
  updated_at = 5;
}

abbrev stored : List Product
stored =
    product "p1" "u1" ∷ product "p2" "u2" ∷ record (product "p3" "u1") { expiration_date = 9 } ∷ []

abbrev rates : List ExchangeRate
rates =
    record { upload_batch_id = "b1"; currency_code = codes "JPY"; rate = of_ℕ 150; captured_at = 4 }
    ∷ []

-- One product a page, of another user.
abbrev query : GetProductsDto
query = record {
  page = none;
  limit = some 1;
  sort_by = none;
  sort_order = none;
  filter_name = none;
  price_min = none;
  price_max = none;
  expiration_from = none;
  expiration_to = none;
  batch_id = some "b1";
  user_id = some "u2";
}

-- The rows of the first user, by their dates.
abbrev own : GetProductsDto
own = record query { sort_by = some by_expiration_date; user_id = some "u1" }

abbrev Before : SortBy → SortOrder → Product → Product → Type 0
Before c d p r = p.expiration_date < r.expiration_date

Before-asym : (c : SortBy) (d : SortOrder) (p r : Product) → Before c d p r → Before c d r p → ⊥
Before-asym c d p r h k = omega arith

all_rows :
    (k : ℕ) (p : Product)
    → Memᴰ p (found holds in_order own stored)
      ↔ Memᴰ p (select (meets holds in_order (conditions own)) stored)
unfolding found
all_rows k p = (λ m. m, λ m. m)

rows_sorted :
    (k : ℕ) → IsAscending (Before by_expiration_date ascending) (found holds in_order own stored)
unfolding found meets conditions
rows_sorted k = ((omega arith, tt), (tt, tt))

find_all_pages_example :
    pages_from holds
      (λ n. in_order)
      1
      (find_all holds in_order own stored rates).pagination.total_pages
      own
      stored
    ≡ found holds in_order own stored
find_all_pages_example =
    find_all_pages holds (λ n. in_order) Before Before-asym own stored rates (omega arith) all_rows
      rows_sorted

find_all-with_own_rates_example :
    (find_all holds in_order query stored rates).data_rows
    ≡ map (with_own_rates rates) (page_of holds in_order query stored)
find_all-with_own_rates_example = find_all-with_own_rates holds in_order query stored rates

find_own-own_example :
    (ps : List Product) × ((find_own holds in_order (some "u1") query stored rates).data_rows
      ≡ map (with_own_rates rates) ps)
    × All (λ p. p.user_id ≡ some "u1") ps
    × All (λ p. Memᴰ p stored) ps
find_own-own_example =
    find_own-own holds in_order "u1" query stored rates holds_user (λ c d P l a. a) refl

-- The tokens of two users.
abbrev sign : String → Text
sign u = if str_eq u "u1" then codes "a.1" else codes "b.2"

unfoldable verify : Text → Option String
verify t = if text_eq t (codes "a.1") then some "u1" else none

is_verified : verify (sign "u1") ≡ some "u1"
unfolding verify text_eq
is_verified = refl

sign-IsToken : IsToken (sign "u1")
sign-IsToken = (refl, (refl, (refl, (refl, tt))))

nobody : find_user "u1" [] ≡ none
unfolding find_user
nobody = refl

can_activate_iff_example :
    (can_activate sign verify false (bearer (codes "a.1")) ≡ admitted (some "u1")) ↔ (
      (t : Text) × (u : String) × Carries (bearer (codes "a.1")) t
      × (t ≢ [])
      × (verify t ≡ some u)
      × (some "u1" ≡ some u))
can_activate_iff_example = can_activate_iff sign verify (bearer (codes "a.1")) (some "u1")
