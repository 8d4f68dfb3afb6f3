-- ===== src/GoClient/Screens/Counts.antt =====
-- components/ImportProgress.tsx of the Go pipeline's client: the bar and the phase.
use csv_product_uploader.Prelude.{
  ℕ, ◌*◌, ◌^◌, ◌≤◌, ◌<◌, ltb, max, true, false, some, str_eq, ◌≡◌, ◌↔◌, refl, ap, arith, Bool-cases,
  inl, inr,
}
use csv_product_uploader.Js.Number.{finite, unit, of_ℕ, round, mul, div}
use csv_product_uploader.Js.Number.Minimum.{math_min_second}
use csv_product_uploader.Js.Number.Whole.{of_ℕ-finite}
use native.Mathlib.Nat.{mul-le-mul_left}
use csv_product_uploader.Server.Percentage.{percentage, percentage_bounds}
use csv_product_uploader.GoClient.Jobs.{ImportJob}
use csv_product_uploader.GoClient.Screens.{
  Phase, complete, streaming, materializing, preparing, percent, phase, phase_text, import_progress,
}

-- The last phase: everything that is valid is published, and processed.
phase-complete_iff :
    (valid published processed : ℕ)
    → (phase valid published processed ≡ complete)
      ↔ ((0 < published) × (valid ≤ published) × (published ≤ processed))
unfolding phase
phase-complete_iff v p c = ground arith

-- The bar shows the percentage where that is at most 100.
percent-percentage :
    (done valid n : ℕ)
    → percentage done valid ≡ finite false (n * unit)
    → n ≤ 100
    → percent done valid ≡ finite false (n * unit)
unfolding percent percentage
percent-percentage done valid n e l = elim (Bool-cases (ltb 0 valid)) [
  | inl some_valid ↦
      let computed : round (mul (div (of_ℕ done) (of_ℕ valid)) (of_ℕ 100))
          ≡ finite false (n * unit) =
        rw some_valid at e in
      rw (some_valid, computed, of_ℕ-finite 100 (omega arith))
        (math_min_second (100 * unit) (n * unit) (omega (arith, mul-le-mul_left unit l)))
  | inr none_valid ↦ rw none_valid (rw none_valid at e)
]

false-ne-true : false ≡ true → ⊥
false-ne-true h = cc

complete_text : (p : Phase) → phase_text p ≡ "Complete" → p ≡ complete
complete_text preparing h = absurd (false-ne-true (ap (λ s. str_eq s "Complete") h))
complete_text streaming h = absurd (false-ne-true (ap (λ s. str_eq s "Complete") h))
complete_text materializing h = absurd (false-ne-true (ap (λ s. str_eq s "Complete") h))
complete_text complete h = refl

-- The counters of a job grow behind each other: what is processed was published, what is published was
-- valid.
pub record IsCounted (j : ImportJob) : Type 0 where
  pub published : j.published_rows ≤ j.valid_rows
  pub processed : j.processed_rows ≤ j.published_rows
  pub small : j.valid_rows < 2 ^ 53

-- For a job whose counters are in order and below 2 ^ 53, the bar is a whole number of percent from
-- 0 to 100, and the label is 'Complete' exactly if there are valid rows and all of them are
-- published and processed. A job without valid rows never gets there, whatever its status.
pub import_progress-shown :
    (j : ImportJob)
    → IsCounted j
    → (n : ℕ) × ((import_progress (some j)).bar ≡ finite false (n * unit))
      × (n ≤ 100)
      × (((import_progress (some j)).label ≡ "Complete") ↔ (
          (0 < j.valid_rows)
          × (j.published_rows ≡ j.valid_rows)
          × (j.processed_rows ≡ j.valid_rows)))
unfolding import_progress
import_progress-shown j c =
    let most : max j.processed_rows j.published_rows ≤ j.valid_rows =
      omega (arith, c.published, c.processed) in
    let (n, e, l) =
      percentage_bounds (max j.processed_rows j.published_rows) j.valid_rows most c.small in
    let iff = phase-complete_iff j.valid_rows j.published_rows j.processed_rows in
    (
      n,
      percent-percentage (max j.processed_rows j.published_rows) j.valid_rows n e l,
      l,
      (
        λ h.
            let (a, b, d) = iff.0 (complete_text _ h) in
            (
              omega (arith, c.published),
              omega (arith, c.published),
              omega (arith, c.published, c.processed),
            ),
        λ (a, b, d). ap phase_text (iff.1 (omega arith, omega arith, omega arith)),
      ),
    )
