-- ===== src/Server/Rates/Frames.antt =====
-- exchange-rates/exchange-rates.service.ts: what a snapshot leaves as it was, whichever calls throw.
use csv_product_uploader.Prelude.{
  map, Bool, true, false, List, Option, none, some, String, ◌≡◌, refl, ◌∙◌,
}
use csv_product_uploader.Server.Entities.{ExchangeRate}
use csv_product_uploader.Server.Rates.{
  RateData, save_rates_for_batch, save_rates, stored_rates, insert_rates, kept_row, fetch_rates,
  from_cache, fetch_api, fetched, use_answer, next_answer,
}
use csv_product_uploader.Server.World.{
  World, Thrown, call, settle, fault_of, ApiReply, unreachable, not_ok, null_body, body,
}
use csv_product_uploader.Server.World.Frames.{IsApart, call-part, after-part}

module _ {X : Type 0} (part : World → X) (p : IsApart part) where
  use_answer-part : (a : ApiReply) (w : World) → part (use_answer a w).1 ≡ part w
  unfolding use_answer
  use_answer-part (body usd) w = p.apart w w.api _ w.now w.rates
  use_answer-part unreachable w = refl
  use_answer-part not_ok w = refl
  use_answer-part null_body w = refl

  fetched-part : (f : Option Thrown) (a : ApiReply) (w : World) → part (fetched f a w).1 ≡ part w
  fetched-part none a w = use_answer-part a w
  fetched-part (some e) a w = refl

  fetch_api-part : (w : World) → part (fetch_api w).1 ≡ part w
  unfolding fetch_api
  fetch_api-part w =
      fetched-part (fault_of w.script) (next_answer w.api) _
      ∙ (p.apart (settle w) _ w.cached_rates w.cache_timestamp w.rates ∙ p.settled w)

  from_cache-part :
      (cached : Option RateData) (fresh : Bool) (w : World)
      → part (from_cache cached fresh w).1 ≡ part w
  from_cache-part (some rates) true w = refl
  from_cache-part (some rates) false w = fetch_api-part w
  from_cache-part none fresh w = fetch_api-part w

  pub fetch_rates-part : (w : World) → part (fetch_rates w).1 ≡ part w
  unfolding fetch_rates
  fetch_rates-part w = from_cache-part w.cached_rates _ w

  stored_rates-part :
      (o : Option (List ExchangeRate)) (w : World) → part (stored_rates o w).1 ≡ part w
  stored_rates-part none w = refl
  stored_rates-part (some rows) w = p.apart w w.api w.cached_rates w.cache_timestamp rows

  save_rates-part : (rows : List ExchangeRate) (w : World) → part (save_rates rows w).1 ≡ part w
  unfolding save_rates
  save_rates-part rows w =
      after-part part p w (call (λ v. v) w) _ (call-part part p (λ v. v) w (λ _. refl))
        (λ _ v. stored_rates-part (insert_rates (map (kept_row v.decimal) rows) v.rates) v)

  pub save_rates_for_batch-part :
      (id : String) (w : World) → part (save_rates_for_batch id w).1 ≡ part w
  unfolding save_rates_for_batch
  save_rates_for_batch-part id w =
      after-part part p w (fetch_rates w) _ (fetch_rates-part w)
        (λ rates v. after-part part p v (save_rates _ v) _ (save_rates-part _ v) (λ _ u. refl))
