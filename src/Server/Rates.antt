-- ===== src/Server/Rates.antt =====
-- exchange-rates/exchange-rates.service.ts: the cached rates, the snapshot of a batch, conversion.
pub mod Snapshot
pub mod Frames
use csv_product_uploader.Prelude.{
  ℕ, ◌*◌, ◌-◌, Bool, true, false, ◌&&◌, ltb, if◌then◌else◌, List, [], ◌∷◌, ◌++◌, map, select, any,
  Option, none, some, String, str_eq, ◌≡◌, refl,
}
use csv_product_uploader.Js.Number.{Number, unit, of_ratio, of_ℕ, mul, div, round}
use csv_product_uploader.Js.Text.{Text, codes, text_eq, to_upper_case}
use csv_product_uploader.Server.Entities.{ExchangeRate}
use csv_product_uploader.Server.World.{
  World, M, Result, ok, err, Thrown, error, ◌>>=◌, ◌>>◌, after, return, call, settle, fault_of,
  ApiReply, unreachable, not_ok, null_body, body,
}

-- An object from currencies to numbers, in the order of its keys.
abbrev pub RateData : Type 0
RateData = List (Text × Number)

unfoldable pub lookup : Text → RateData → Option Number
lookup k [] = none
lookup k ((c, r) ∷ t) = if text_eq c k then some r else lookup k t

-- `object[k] = v`
unfoldable pub put : Text → Number → RateData → RateData
put k v [] = (k, v) ∷ []
put k v ((c, r) ∷ t) = if text_eq c k then (c, v) ∷ t else (c, r) ∷ put k v t

abbrev pub supported_currencies : List Text
supported_currencies = codes "usd" ∷ codes "eur" ∷ codes "gbp" ∷ codes "jpy" ∷ codes "aud" ∷ []

-- A number literal of the source, as so many hundredths.
unfoldable pub hundredths : ℕ → Number
hundredths n = of_ratio false (n * unit) 100

abbrev pub fallback_rates : RateData
fallback_rates =
    (codes "usd", hundredths 100)
    ∷ (codes "eur", hundredths 92)
    ∷ (codes "gbp", hundredths 79)
    ∷ (codes "jpy", hundredths 14950)
    ∷ (codes "aud", hundredths 153)
    ∷ []

abbrev pub cache_ttl : ℕ
cache_ttl = 24 * 60 * 60 * 1000

abbrev pub or_else : Option Number → Option Number → Option Number
or_else (some r) d = some r
or_else none d = d

abbrev pub lookup_in : Text → Option RateData → Option Number
lookup_in k none = none
lookup_in k (some t) = lookup k t

abbrev pub put_some : Text → Option Number → RateData → RateData
put_some k none t = t
put_some k (some r) t = put k r t

-- The loop over the supported currencies: the API's rate, or else the fallback's.
unfoldable pub pick_from : Option RateData → RateData → List Text → RateData
pick_from usd rates [] = rates
pick_from usd rates (c ∷ cs) =
    pick_from usd (put_some c (or_else (lookup_in c usd) (lookup c fallback_rates)) rates) cs

abbrev pub pick_rates : Option RateData → RateData
pick_rates usd = pick_from usd [] supported_currencies

abbrev pub next_answer : List ApiReply → ApiReply
next_answer [] = unreachable
next_answer (a ∷ as_) = a

abbrev pub later_answers : List ApiReply → List ApiReply
later_answers [] = []
later_answers (a ∷ as_) = as_

-- A body fills the cache; whatever else happens is caught, and the fallback is used.
unfoldable pub use_answer : ApiReply → M RateData
use_answer (body usd) w = (
  ok (pick_rates usd),
  record w { cached_rates = some (pick_rates usd); cache_timestamp = w.now },
)
use_answer a w = (ok fallback_rates, w)

abbrev pub fetched : Option Thrown → ApiReply → M RateData
fetched (some e) a w = (ok fallback_rates, w)
fetched none a w = use_answer a w

unfoldable pub fetch_api : M RateData
fetch_api w =
    fetched (fault_of w.script) (next_answer w.api)
      (record (settle w) { api = later_answers w.api })

abbrev pub from_cache : Option RateData → Bool → M RateData
from_cache (some rates) true w = (ok rates, w)
from_cache _ _ w = fetch_api w

unfoldable pub fetch_rates : M RateData
fetch_rates w = from_cache w.cached_rates (ltb (w.now - w.cache_timestamp) cache_ttl) w

unfoldable pub rate_row : String → ℕ → Text × Number → ExchangeRate
rate_row batch_id now (currency, rate) = record {
  upload_batch_id = batch_id;
  currency_code = to_upper_case currency;
  rate = rate;
  captured_at = now;
}

-- The columns of `@Unique(['uploadBatchId', 'currencyCode'])`.
unfoldable pub same_key : ExchangeRate → ExchangeRate → Bool
same_key a b = str_eq a.upload_batch_id b.upload_batch_id && text_eq a.currency_code b.currency_code

-- The table with new rows, unless one breaks the constraint.
unfoldable pub insert_rates : List ExchangeRate → List ExchangeRate → Option (List ExchangeRate)
insert_rates [] stored = some stored
insert_rates (r ∷ rs) stored =
    let inserted = insert_rates rs (stored ++ r ∷ []) in
    if any (same_key r) stored then none else inserted

abbrev pub duplicate_key : Thrown
duplicate_key = error "duplicate key value violates unique constraint"

abbrev pub stored_rates : Option (List ExchangeRate) → M (Unit {0})
stored_rates none w = (err duplicate_key, w)
stored_rates (some rows) w = (ok tt, record w { rates = rows })

-- A row as the table keeps it.
unfoldable pub kept_row : (Number → Number) → ExchangeRate → ExchangeRate
kept_row decimal r = record r { rate = decimal r.rate }

-- `exchangeRateRepository.save(…)`, one transaction; it leaves the rows that it was given as they are.
unfoldable pub save_rates : List ExchangeRate → M (Unit {0})
save_rates rows = do
  call (λ w. w)
  λ w. stored_rates (insert_rates (map (kept_row w.decimal) rows) w.rates) w

unfoldable pub save_rates_for_batch : String → M (List ExchangeRate)
save_rates_for_batch batch_id = do
  rates ← fetch_rates
  λ w.
      let rows = map (rate_row batch_id w.now) rates in after (save_rates rows w) (λ _. return rows)

unfoldable pub get_rates_for_batch : String → List ExchangeRate → List ExchangeRate
get_rates_for_batch batch_id = select (λ r. str_eq r.upload_batch_id batch_id)

-- `Math.round(price * rate * 100) / 100`
unfoldable pub convert : Number → Number → Number
convert price rate = div (round (mul (mul price rate) (of_ℕ 100))) (of_ℕ 100)

-- The loop of `convertPrice`.
unfoldable pub convert_from : Number → RateData → List ExchangeRate → RateData
convert_from price converted [] = converted
convert_from price converted (r ∷ rs) =
    convert_from price (put r.currency_code (convert price r.rate) converted) rs

unfoldable pub convert_price : Number → List ExchangeRate → RateData
convert_price price rates = convert_from price [] rates
