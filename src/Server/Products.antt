-- ===== src/Server/Products.antt =====
-- products/products.service.ts, `findAll`, and products/products.controller.ts. The database is a
-- parameter: which rows meet a condition, and in which order it returns them for the one request that
-- is made; rows with the same value may come in another order for another request. A decimal column is the
-- number that it reads as.
pub mod Paging
pub mod Conversion
use csv_product_uploader.Prelude.{
  ℕ, suc, ◌-◌, ◌*◌, ◌/◌, ◌%◌, ◌==◌, Bool, true, false, ◌&&◌, ◌||◌, if◌then◌else◌, List, [], ◌∷◌,
  ◌++◌, map, length, take, drop, select, any, Option, none, some, String, str_eq,
}
use csv_product_uploader.Js.Number.{Number}
use csv_product_uploader.Js.Text.{Text, codes}
use csv_product_uploader.Server.Entities.{ExchangeRate, or_null}
use csv_product_uploader.Server.Rates.{RateData, put, convert, get_rates_for_batch}

pub record Product : Type 0 where
  pub id : String
  pub name : Text
  pub price : Number
  pub expiration_date : ℕ
  pub upload_batch_id : String
  pub user_id : Option String
  pub created_at : ℕ
  pub updated_at : ℕ

pub data SortBy : Type 0 where
  by_name by_price by_expiration_date : SortBy

pub data SortOrder : Type 0 where
  ascending descending : SortOrder

-- products/dto/get-products.dto.ts: the values are present or missing; whole pages and limits only.
pub record GetProductsDto : Type 0 where
  pub page : Option ℕ
  pub limit : Option ℕ
  pub sort_by : Option SortBy
  pub sort_order : Option SortOrder
  pub filter_name : Option Text
  pub price_min : Option Number
  pub price_max : Option Number
  pub expiration_from : Option String
  pub expiration_to : Option String
  pub batch_id : Option String
  pub user_id : Option String

-- The conditions that the query builder is given: a pattern for the name in lower case, and bounds.
pub data Condition : Type 0 where
  name_like : Text → Condition
  price_from price_to : Number → Condition
  expires_from expires_to : String → Condition
  of_batch of_user : String → Condition

-- `${…}%`, unless the text is empty.
abbrev pub name_condition : Option Text → List Condition
name_condition none = []
name_condition (some []) = []
name_condition (some (c ∷ cs)) = name_like (codes "%" ++ ((c ∷ cs) ++ codes "%")) ∷ []

-- `if (value !== undefined)`
abbrev pub defined_condition : (Number → Condition) → Option Number → List Condition
defined_condition c none = []
defined_condition c (some x) = c x ∷ []

-- `if (value)`
abbrev pub text_condition : (String → Condition) → Option String → List Condition
text_condition c none = []
text_condition c (some s) = c s ∷ []

unfoldable pub conditions : GetProductsDto → List Condition
conditions q =
    name_condition q.filter_name
    ++ (defined_condition price_from q.price_min
        ++ (defined_condition price_to q.price_max
            ++ (text_condition expires_from (or_null q.expiration_from)
                ++ (text_condition expires_to (or_null q.expiration_to)
                    ++ (text_condition of_batch (or_null q.batch_id)
                        ++ text_condition of_user (or_null q.user_id))))))

-- The default of a value that is missing.
abbrev pub or_default {ℓ} : {A : Type ℓ} → A → Option A → A
or_default a none = a
or_default a (some b) = b

pub record ProductWithRates : Type 0 where
  pub id : String
  pub name : Text
  pub price : Number
  pub expiration_date : ℕ
  pub upload_date : ℕ
  pub exchange_rates : RateData

pub record Pagination : Type 0 where
  pub page : ℕ
  pub limit : ℕ
  pub total : ℕ
  pub total_pages : ℕ

pub record PaginatedResponse : Type 0 where
  pub success : Bool
  pub data_rows : List ProductWithRates
  pub pagination : Pagination

-- `Math.ceil(total / limit)`, exact on whole numbers below 2 ^ 53; the limit is at least 1.
unfoldable pub ceil_div : ℕ → ℕ → ℕ
ceil_div total limit = if total % limit == 0 then total / limit else suc (total / limit)

-- `[...new Set(…)]`: each value once, in the order of its first place; those already seen are given.
unfoldable pub distinct : List String → List String → List String
distinct seen [] = []
distinct seen (s ∷ ss) =
    let rest = s ∷ distinct (s ∷ seen) ss in if any (str_eq s) seen then distinct seen ss else rest

-- `rates.forEach((r) => { rateObj[r.currencyCode] = Number(r.rate); })`
unfoldable pub rate_object : RateData → List ExchangeRate → RateData
rate_object o [] = o
rate_object o (r ∷ rs) = rate_object (put r.currency_code r.rate o) rs

-- `ratesMap`
unfoldable pub rates_map : List ExchangeRate → List String → List (String × RateData)
rates_map stored [] = []
rates_map stored (b ∷ bs) = (b, rate_object [] (get_rates_for_batch b stored)) ∷ rates_map stored bs

-- `ratesMap.get(…) || {}`
unfoldable pub batch_rates : String → List (String × RateData) → RateData
batch_rates b [] = []
batch_rates b ((k, r) ∷ m) = if str_eq k b then r else batch_rates b m

-- The loop over `Object.entries(batchRates)`.
unfoldable pub converted : Number → RateData → RateData → RateData
converted price o [] = o
converted price o ((c, r) ∷ rs) = converted price (put c (convert price r) o) rs

unfoldable pub with_rates : List (String × RateData) → Product → ProductWithRates
with_rates m p = record {
  id = p.id;
  name = p.name;
  price = p.price;
  expiration_date = p.expiration_date;
  upload_date = p.created_at;
  exchange_rates = converted p.price [] (batch_rates p.upload_batch_id m);
}

-- The controller's override: a signed-in user sees the user's own products.
unfoldable pub own_query : Option String → GetProductsDto → GetProductsDto
own_query none q = q
own_query (some u) q = if str_eq u "" then q else record q { user_id = some u }

module _ (holds : Condition → Product → Bool)
    (order_by : SortBy → SortOrder → List Product → List Product) where
  unfoldable pub meets : List Condition → Product → Bool
  meets [] p = true
  meets (c ∷ cs) p = holds c p && meets cs p

  -- What the query finds, all pages of it.
  unfoldable pub found : GetProductsDto → List Product → List Product
  found q stored =
      order_by (or_default by_name q.sort_by) (or_default ascending q.sort_order)
        (select (meets (conditions q)) stored)

  -- `qb.skip(skip).take(limit).getMany()`
  unfoldable pub page_of : GetProductsDto → List Product → List Product
  page_of q stored =
      let limit = or_default 50 q.limit in
      take limit (drop ((or_default 1 q.page - 1) * limit) (found q stored))

  unfoldable pub find_all : GetProductsDto → List Product → List ExchangeRate → PaginatedResponse
  find_all q stored rates =
      let total = length (found q stored) in
      let products = page_of q stored in
      let m = rates_map rates (distinct [] (map (λ p. p.upload_batch_id) products)) in
      record {
        success = true;
        data_rows = map (with_rates m) products;
        pagination = record {
          page = or_default 1 q.page;
          limit = or_default 50 q.limit;
          total = total;
          total_pages = ceil_div total (or_default 50 q.limit);
        };
      }

  -- `ProductsController.findAll`
  unfoldable pub find_own :
      Option String → GetProductsDto → List Product → List ExchangeRate → PaginatedResponse
  find_own user q stored rates = find_all (own_query user q) stored rates
