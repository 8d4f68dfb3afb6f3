-- ===== src/Server/Rates/Snapshot/Saved.antt =====
-- exchange-rates/exchange-rates.service.ts, `saveRatesForBatch`: the snapshot of a batch.
use mathlib.Core.List.{append-nil, append_assoc}
use csv_product_uploader.Prelude.{
  ℕ, Bool, false, List, [], ◌∷◌, ◌++◌, map, any, some, String, str_eq, eq_refl, ◌≡◌, refl, sym,
  subst, All, ap, ◌∙◌, arith,
}
use csv_product_uploader.Js.Number.{Number}
use csv_product_uploader.Js.Text.{text_eq, to_upper_case}
use csv_product_uploader.Server.Entities.{ExchangeRate}
use csv_product_uploader.Server.World.{
  World, Result, ok, after, after-ok, return, call-quiet, settle, IsQuiet, later_replies-IsQuiet,
}
use csv_product_uploader.Server.Rates.{
  RateData, fetch_rates, rate_row, same_key, insert_rates, kept_row, save_rates,
  save_rates_for_batch,
}
use csv_product_uploader.Server.World.Frames.{IsApart}
use csv_product_uploader.Server.Rates.Frames.{fetch_rates-part, save_rates_for_batch-part}
use csv_product_uploader.Server.Rates.Snapshot.{
  table, IsSupported, CacheIsSupported, fetch_rates-Fetches,
}

-- No rate of a batch is stored.
abbrev pub NoRates : String → List ExchangeRate → Type 0
NoRates id rows = any (λ r. str_eq id r.upload_batch_id) rows ≡ false

any-append :
    (p : ExchangeRate → Bool) (xs ys : List ExchangeRate)
    → any p xs ≡ false
    → any p ys ≡ false
    → any p (xs ++ ys) ≡ false
any-append p [] ys h k = k
any-append p (x ∷ xs) ys h k = ground (arith, any-append p xs ys)

any-same_key :
    (r : ExchangeRate) (rows : List ExchangeRate)
    → NoRates r.upload_batch_id rows
    → any (same_key r) rows ≡ false
unfolding same_key
any-same_key r [] h = refl
any-same_key r (x ∷ rows) h = ground (arith, any-same_key r rows)

-- Rows that can be inserted one after the other.
abbrev IsInsertable : List ExchangeRate → List ExchangeRate → Type 0
IsInsertable [] stored = Unit
IsInsertable (r ∷ rs) stored =
    (any (same_key r) stored ≡ false) × IsInsertable rs (stored ++ r ∷ [])

insert_rates-eq :
    (rows stored : List ExchangeRate)
    → IsInsertable rows stored
    → insert_rates rows stored ≡ some (stored ++ rows)
unfolding insert_rates
insert_rates-eq [] stored h = ap some (sym (append-nil stored))
insert_rates-eq (r ∷ rs) stored h =
    rw (h.0, insert_rates-eq rs (stored ++ r ∷ []) h.1) (ap some (append_assoc stored (r ∷ []) rs))

abbrev pub snapshot : String → ℕ → RateData → List ExchangeRate
snapshot id now rates = map (rate_row id now) rates

IsInsertable-after :
    (id : String) (rows before stored : List ExchangeRate)
    → All (λ r. r.upload_batch_id ≡ id) rows
    → NoRates id stored
    → IsInsertable rows before
    → IsInsertable rows (stored ++ before)
IsInsertable-after id [] before stored a n h = tt
IsInsertable-after id (r ∷ rs) before stored a n h = (
  any-append (same_key r) stored before (any-same_key r stored (rw a.0 n)) h.0,
  rw (append_assoc stored before (r ∷ []))
      (IsInsertable-after id rs (before ++ r ∷ []) stored a.1 n h.1),
)

table-IsInsertable :
    (id : String) (now : ℕ) (u e g j a : Number)
    → IsInsertable (snapshot id now (table u e g j a)) []
unfolding rate_row same_key to_upper_case text_eq
table-IsInsertable id now u e g j a = rw eq_refl (refl, (refl, (refl, (refl, (refl, tt)))))

snapshot-ids :
    (id : String) (now : ℕ) (rates : RateData)
    → All (λ r. r.upload_batch_id ≡ id) (snapshot id now rates)
unfolding rate_row
snapshot-ids id now [] = tt
snapshot-ids id now ((c, r) ∷ rates) = (refl, snapshot-ids id now rates)

snapshot-IsInsertable :
    (id : String) (now : ℕ) (rates : RateData) (stored : List ExchangeRate)
    → IsSupported rates
    → NoRates id stored
    → IsInsertable (snapshot id now rates) stored
snapshot-IsInsertable id now rates stored (u, e, g, j, a, same) n =
    subst (λ (s : List ExchangeRate). IsInsertable (snapshot id now rates) s) (append-nil stored)
      (IsInsertable-after id (snapshot id now rates) [] stored (snapshot-ids id now rates) n
        (rw same (table-IsInsertable id now u e g j a)))

-- Rates as the table keeps them.
abbrev pub kept_rates : (Number → Number) → RateData → RateData
kept_rates decimal [] = []
kept_rates decimal ((c, r) ∷ rates) = (c, decimal r) ∷ kept_rates decimal rates

kept_rates-snapshot :
    (decimal : Number → Number) (id : String) (now : ℕ) (rates : RateData)
    → map (kept_row decimal) (snapshot id now rates) ≡ snapshot id now (kept_rates decimal rates)
unfolding kept_row rate_row
kept_rates-snapshot decimal id now [] = refl
kept_rates-snapshot decimal id now ((c, r) ∷ rates) =
    rw (kept_rates-snapshot decimal id now rates) refl

kept_rates-IsSupported :
    (decimal : Number → Number) (rates : RateData)
    → IsSupported rates
    → IsSupported (kept_rates decimal rates)
kept_rates-IsSupported decimal rates (u, e, g, j, a, same) =
    (_, _, _, _, _, ap (kept_rates decimal) same)

queue-IsApart : IsApart (λ w. w.queue)
queue-IsApart = record { settled = λ w. refl; apart = λ w a c t r. refl }

job_progress-IsApart : IsApart (λ w. w.job_progress)
job_progress-IsApart = record { settled = λ w. refl; apart = λ w a c t r. refl }

decimal-IsApart : IsApart (λ w. w.decimal)
decimal-IsApart = record { settled = λ w. refl; apart = λ w a c t r. refl }

-- What `saveRatesForBatch` does when no call throws: it returns the rates as they were captured, and
-- the table has them as its column keeps them.
pub record Saves (id : String) (w : World) (r : Result (List ExchangeRate) × World) : Type 0 where
  pub captured : RateData
  pub time : ℕ
  pub supported : IsSupported captured
  pub returned : r.0 ≡ ok (snapshot id time captured)
  pub stored : r.1.rates ≡ w.rates ++ snapshot id time (kept_rates w.decimal captured)
  pub batches : r.1.batches ≡ w.batches
  pub products : r.1.products ≡ w.products
  pub files : r.1.files ≡ w.files
  pub emitted : r.1.emitted ≡ w.emitted
  pub queue : r.1.queue ≡ w.queue
  pub job_progress : r.1.job_progress ≡ w.job_progress
  pub cache : CacheIsSupported r.1.cached_rates
  pub quiet : IsQuiet r.1.script

save_rates-stored :
    (rows : List ExchangeRate) (w : World)
    → IsQuiet w.script
    → IsInsertable (map (kept_row w.decimal) rows) w.rates
    → save_rates rows w
      ≡ (ok tt, record (settle w) { rates = w.rates ++ map (kept_row w.decimal) rows })
unfolding save_rates
save_rates-stored rows w q h =
    rw (call-quiet (λ v. v) w q, insert_rates-eq (map (kept_row w.decimal) rows) w.rates h)

pub save_rates_for_batch-Saves :
    (id : String) (w : World)
    → IsQuiet w.script
    → CacheIsSupported w.cached_rates
    → NoRates id w.rates
    → Saves id w (save_rates_for_batch id w)
unfolding save_rates_for_batch
save_rates_for_batch-Saves id w q c n =
    let f = fetch_rates-Fetches w c in
    let v = (fetch_rates w).1 in
    let rows = snapshot id v.now f.fetched_rates in
    let kept = snapshot id v.now (kept_rates v.decimal f.fetched_rates) in
    let as_kept : map (kept_row v.decimal) rows ≡ kept =
      kept_rates-snapshot v.decimal id v.now f.fetched_rates in
    let insertable =
      subst (λ (s : List ExchangeRate). IsInsertable s v.rates) (sym as_kept)
        (snapshot-IsInsertable id v.now (kept_rates v.decimal f.fetched_rates) v.rates
          (kept_rates-IsSupported v.decimal f.fetched_rates f.supported) (rw f.keeps.rates n)) in
    let same_decimal : v.decimal ≡ w.decimal =
      fetch_rates-part (λ u. u.decimal) decimal-IsApart w in
    let whole_queue = save_rates_for_batch-part (λ u. u.queue) queue-IsApart id w in
    let whole_progress =
      save_rates_for_batch-part (λ u. u.job_progress) job_progress-IsApart id w in
    let saved = save_rates-stored rows v (f.quiet q) insertable in
    let total : save_rates_for_batch id w
        ≡ (ok rows, record (settle v) { rates = v.rates ++ map (kept_row v.decimal) rows }) =
      after-ok (fetch_rates w) _ f.returned ∙ ap (λ r. after r (λ _. return rows)) saved in
    rw total (record {
      captured = f.fetched_rates;
      time = v.now;
      supported = f.supported;
      returned = refl;
      stored =
          ap (λ (s : List ExchangeRate). s ++ map (kept_row v.decimal) rows) f.keeps.rates
          ∙ (ap (λ (s : List ExchangeRate). w.rates ++ s) as_kept
              ∙ ap
                  (λ (d : Number → Number).
                    w.rates ++ snapshot id v.now (kept_rates d f.fetched_rates))
                  same_decimal);
      batches = f.keeps.batches;
      products = f.keeps.products;
      files = f.keeps.files;
      emitted = f.keeps.emitted;
      queue = sym (ap (λ x. x.1.queue) total) ∙ whole_queue;
      job_progress = sym (ap (λ x. x.1.job_progress) total) ∙ whole_progress;
      cache = f.cache;
      quiet = later_replies-IsQuiet v.script (f.quiet q);
    })
