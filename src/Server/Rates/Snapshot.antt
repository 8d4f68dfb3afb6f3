-- ===== src/Server/Rates/Snapshot.antt =====
-- exchange-rates.service.ts: which rates `fetchRates` returns, and the snapshot that a batch gets.
pub mod Saved
use mathlib.Core.List.{append-nil, append_assoc}
use csv_product_uploader.Prelude.{
  ℕ, ◌-◌, ◌<◌, Bool, true, false, lt→ltb, List, [], ◌∷◌, ◌++◌, map, any, Option, none, some, String,
  str_eq, eq_refl, ◌≡◌, refl, sym, subst, All, ap, ◌∙◌, arith,
}
use csv_product_uploader.Js.Number.{Number}
use csv_product_uploader.Js.Text.{Text, codes, text_eq, to_upper_case}
use csv_product_uploader.Server.Entities.{ExchangeRate}
use csv_product_uploader.Server.World.{
  World, Result, ok, Thrown, after, after-ok, return, call-quiet, settle, fault_of, IsQuiet,
  later_replies-IsQuiet, ApiReply, unreachable, not_ok, null_body, body,
}
use csv_product_uploader.Server.Rates.{
  RateData, lookup, put, hundredths, fallback_rates, cache_ttl, or_else, lookup_in, pick_from,
  pick_rates, use_answer, fetched, fetch_api, from_cache, fetch_rates, rate_row, same_key,
  insert_rates, save_rates, save_rates_for_batch, next_answer, later_answers,
}

-- Rates of the five currencies, in the order of the source's list.
abbrev pub table : Number → Number → Number → Number → Number → RateData
table u e g j a =
    (codes "usd", u)
    ∷ (codes "eur", e)
    ∷ (codes "gbp", g)
    ∷ (codes "jpy", j)
    ∷ (codes "aud", a)
    ∷ []

abbrev pub IsSupported : RateData → Type 0
IsSupported rates = (u e g j a : Number) × (rates ≡ table u e g j a)

abbrev chosen : Option Number → Number → Number
chosen none d = d
chosen (some r) d = r

or_else-some : (o : Option Number) (d : Number) → or_else o (some d) ≡ some (chosen o d)
or_else-some none d = refl
or_else-some (some r) d = refl

abbrev pub quoted : Option RateData → Text → Number → Number
quoted usd c d = chosen (lookup_in c usd) d

pick_rates-table :
    (usd : Option RateData)
    → pick_rates usd
      ≡ table
          (quoted usd (codes "usd") (hundredths 100))
          (quoted usd (codes "eur") (hundredths 92))
          (quoted usd (codes "gbp") (hundredths 79))
          (quoted usd (codes "jpy") (hundredths 14950))
          (quoted usd (codes "aud") (hundredths 153))
unfolding pick_from put lookup text_eq
pick_rates-table usd = simp or_else-some

pick_rates-IsSupported : (usd : Option RateData) → IsSupported (pick_rates usd)
pick_rates-IsSupported usd = (_, _, _, _, _, pick_rates-table usd)

fallback-IsSupported : IsSupported fallback_rates
fallback-IsSupported = (_, _, _, _, _, refl)

-- The cache is empty, or holds rates of the five currencies.
abbrev pub CacheIsSupported : Option RateData → Type 0
CacheIsSupported none = Unit
CacheIsSupported (some rates) = IsSupported rates

-- What fetching leaves alone.
pub record Keeps (w v : World) : Type 0 where
  pub batches : v.batches ≡ w.batches
  pub products : v.products ≡ w.products
  pub rates : v.rates ≡ w.rates
  pub files : v.files ≡ w.files
  pub emitted : v.emitted ≡ w.emitted

-- The result of `fetchRates`.
pub record Fetches (w : World) (r : Result RateData × World) : Type 0 where
  pub fetched_rates : RateData
  pub returned : r.0 ≡ ok fetched_rates
  pub supported : IsSupported fetched_rates
  pub cache : CacheIsSupported r.1.cached_rates
  pub keeps : Keeps w r.1
  pub quiet : IsQuiet w.script → IsQuiet r.1.script

Keeps-refl : (w : World) → Keeps w w
Keeps-refl w = record {
  batches = refl;
  products = refl;
  rates = refl;
  files = refl;
  emitted = refl;
}

returns-Fetches :
    (w : World) (rates : RateData)
    → IsSupported rates
    → CacheIsSupported w.cached_rates
    → Fetches w (ok rates, w)
returns-Fetches w rates s c = record {
  fetched_rates = rates;
  returned = refl;
  supported = s;
  cache = c;
  keeps = Keeps-refl w;
  quiet = λ q. q;
}

use_answer-Fetches :
    (w : World) (a : ApiReply) → CacheIsSupported w.cached_rates → Fetches w (use_answer a w)
unfolding use_answer
use_answer-Fetches w (body usd) c = record {
  fetched_rates = pick_rates usd;
  returned = refl;
  supported = pick_rates-IsSupported usd;
  cache = pick_rates-IsSupported usd;
  keeps = record { batches = refl; products = refl; rates = refl; files = refl; emitted = refl };
  quiet = λ q. q;
}
use_answer-Fetches w unreachable c = returns-Fetches w fallback_rates fallback-IsSupported c
use_answer-Fetches w not_ok c = returns-Fetches w fallback_rates fallback-IsSupported c
use_answer-Fetches w null_body c = returns-Fetches w fallback_rates fallback-IsSupported c

fetched-Fetches :
    (w : World) (f : Option Thrown) (a : ApiReply)
    → CacheIsSupported w.cached_rates
    → Fetches w (fetched f a w)
fetched-Fetches w none a c = use_answer-Fetches w a c
fetched-Fetches w (some e) a c = returns-Fetches w fallback_rates fallback-IsSupported c

fetch_api-Fetches : (w : World) → CacheIsSupported w.cached_rates → Fetches w (fetch_api w)
unfolding fetch_api
fetch_api-Fetches w c =
    let v : World = record (settle w) { api = later_answers w.api } in
    let f = fetched-Fetches v (fault_of w.script) (next_answer w.api) c in
    record {
      fetched_rates = f.fetched_rates;
      returned = f.returned;
      supported = f.supported;
      cache = f.cache;
      keeps = record {
        batches = f.keeps.batches;
        products = f.keeps.products;
        rates = f.keeps.rates;
        files = f.keeps.files;
        emitted = f.keeps.emitted;
      };
      quiet = λ q. f.quiet (later_replies-IsQuiet w.script q);
    }

from_cache-Fetches :
    (w : World) (cached : Option RateData) (fresh : Bool)
    → CacheIsSupported cached
    → CacheIsSupported w.cached_rates
    → Fetches w (from_cache cached fresh w)
from_cache-Fetches w (some rates) true s c = returns-Fetches w rates s c
from_cache-Fetches w (some rates) false s c = fetch_api-Fetches w c
from_cache-Fetches w none fresh s c = fetch_api-Fetches w c

-- `fetchRates` never throws, whether the API answers or not, with a table or without one, whose values
-- are numbers, and whichever calls fail: it returns a rate for each of the five supported currencies,
-- leaves such rates in the cache or leaves it empty, and changes no table, file or event, provided that
-- the cache is empty or holds rates of these currencies.
pub fetch_rates-Fetches : (w : World) → CacheIsSupported w.cached_rates → Fetches w (fetch_rates w)
unfolding fetch_rates
fetch_rates-Fetches w c = from_cache-Fetches w w.cached_rates _ c c

-- Of an empty cache: a fetch that the API answers with its table returns the rates of the table, one
-- for each supported currency, with the fallback's where the table has none. In every world that is
-- within 24 hours of that fetch and in which the cache is as the fetch left it, `fetchRates` returns
-- the same rates, with no call to the API and no change of state.
pub fetch_rates-cached :
    (w later : World) (usd : Option RateData)
    → w.cached_rates ≡ none
    → fault_of w.script ≡ none
    → next_answer w.api ≡ body usd
    → later.cached_rates ≡ (fetch_rates w).1.cached_rates
    → later.cache_timestamp ≡ (fetch_rates w).1.cache_timestamp
    → later.now - (settle w).now < cache_ttl
    → (rates : RateData) × ((fetch_rates w).0 ≡ ok rates)
      × (rates
          ≡ table
              (quoted usd (codes "usd") (hundredths 100))
              (quoted usd (codes "eur") (hundredths 92))
              (quoted usd (codes "gbp") (hundredths 79))
              (quoted usd (codes "jpy") (hundredths 14950))
              (quoted usd (codes "aud") (hundredths 153)))
      × (fetch_rates later ≡ (ok rates, later))
unfolding fetch_rates fetch_api use_answer
fetch_rates-cached w later usd empty works says =
    rw (empty, works, says)
      λ kept stamp soon. (
        pick_rates usd,
        refl,
        pick_rates-table usd,
        rw (kept, stamp, lt→ltb (later.now - (settle w).now) cache_ttl soon) refl,
      )
