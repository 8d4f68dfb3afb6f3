-- ===== src/GoClient/Api.antt =====
-- services/api.ts of the Go pipeline's client: the requests, their parameters and their errors.
use csv_product_uploader.Prelude.{ℕ, List, [], ◌∷◌, Option, none, some, String}
use csv_product_uploader.Server.Entities.{or_null}
use csv_product_uploader.GoClient.Products.{
  SortColumn, name, price, expiration, Direction, asc, desc, JobFilters,
}

-- What `fetch` gives: a failure of the network, or a response with its body, which is what
-- `res.json()` gives, the field `error` of an error's body, or none of these.
pub data HttpReply {ℓ} (A : Type ℓ) : Type ℓ where
  unreachable : String → HttpReply A
  accepted : A → HttpReply A
  unreadable : String → HttpReply A
  refused : ℕ → Option String → HttpReply A

-- The message of the error: that of the body, or 'Request failed with status …'.
pub data RequestError : Type 0 where
  said : String → RequestError
  status_failed : ℕ → RequestError

pub data ApiResult {ℓ} (A : Type ℓ) : Type ℓ where
  value : A → ApiResult A
  thrown : RequestError → ApiResult A

-- `body?.error ?? …`; an empty text is kept.
abbrev pub error_of_body : ℕ → Option String → RequestError
error_of_body status none = status_failed status
error_of_body status (some e) = said e

unfoldable pub request {ℓ} : {A : Type ℓ} → HttpReply A → ApiResult A
request (unreachable m) = thrown (said m)
request (unreadable m) = thrown (said m)
request (accepted a) = value a
request (refused status e) = thrown (error_of_body status e)

-- A parameter before it is written as a text.
pub data Param : Type 0 where
  number : ℕ → Param
  word : String → Param

abbrev pub column_text : SortColumn → String
column_text name = "name"
column_text price = "price"
column_text expiration = "expiration"

abbrev pub direction_text : Direction → String
direction_text asc = "ASC"
direction_text desc = "DESC"

abbrev pub name_param : Option String → List (String × Param)
name_param none = []
name_param (some s) = ("filterName", word s) ∷ []

-- The parameters of `getProducts`.
unfoldable pub product_params : JobFilters → ℕ → List (String × Param)
product_params f page =
    ("page", number page)
    ∷ ("limit", number f.limit)
    ∷ ("sortBy", word (column_text f.sort_by))
    ∷ ("sortOrder", word (direction_text f.sort_order))
    ∷ name_param (or_null f.filter_name)
