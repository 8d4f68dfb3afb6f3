-- ===== src/GoClient/Reports.antt =====
-- components/ReportView.tsx, components/products/ProductsView.tsx and
-- components/PipelineMetrics.tsx of the Go pipeline's client: what they load, and what they show of
-- it without the markup.
use csv_product_uploader.Prelude.{
  ℕ, Bool, true, false, if◌then◌else◌, List, [], ◌∷◌, Option, none, some, String,
}
use csv_product_uploader.Js.Number.{Number, round}
use csv_product_uploader.Server.Entities.{or_null}
use csv_product_uploader.GoClient.Jobs.{ImportJob}

-- `ImportReport`
pub record ImportReport : Type 0 where
  pub job_id : String
  pub file_name : String
  pub status : String
  pub rows_total : ℕ
  pub rows_valid : ℕ
  pub rows_invalid : ℕ
  pub events_published : ℕ
  pub events_processed : ℕ
  pub events_retried : ℕ
  pub events_dead : ℕ
  pub published : ℕ
  pub confirmed : ℕ
  pub unconfirmed : ℕ
  pub state : String
  pub generated_at : String

-- The state of `ReportView`, for one job; the effect's clean-up cancels its request.
pub record ReportState : Type 0 where
  pub report : Option ImportReport
  pub error : Option String
  pub cancelled : Bool

abbrev pub opened_report : ReportState
opened_report = record { report = none; error = none; cancelled = false }

-- The view is left, or shows another job.
unfoldable pub cancel_report : ReportState → ReportState
cancel_report s = record s { cancelled = true }

unfoldable pub report_loaded : ImportReport → ReportState → ReportState
report_loaded r s = if s.cancelled then s else record s { report = some r }

abbrev pub report_message : Option String → String
report_message none = "Failed to load report"
report_message (some m) = m

-- The request fails; the message is that of an `Error`, or missing.
unfoldable pub report_failed : Option String → ReportState → ReportState
report_failed m s = if s.cancelled then s else record s { error = some (report_message m) }

-- `cards`: a title, and its items.
abbrev pub Card : Type 0
Card = String × List (String × ℕ)

unfoldable pub report_cards : ImportReport → List Card
report_cards r =
    (
      "File rows",
      ("Total", r.rows_total) ∷ ("Valid", r.rows_valid) ∷ ("Invalid", r.rows_invalid) ∷ [],
    )
    ∷ (
      "Event stream",
      ("Published", r.events_published)
          ∷ ("Processed", r.events_processed)
          ∷ ("Retried", r.events_retried)
          ∷ ("Dead-lettered", r.events_dead)
          ∷ [],
    )
    ∷ (
      "Reconciliation",
      ("Published", r.published) ∷ ("Confirmed", r.confirmed) ∷ ("Unconfirmed", r.unconfirmed) ∷ [],
    )
    ∷ []

pub data ReportBox : Type 0 where
  report_error : String → ReportBox
  placeholders : ℕ → ReportBox
  -- The file, the state and the cards.
  report_shown : String → String → List Card → ReportBox

abbrev pub box_of : Option ImportReport → ReportBox
box_of none = placeholders 3
box_of (some r) = report_shown r.file_name r.state (report_cards r)

abbrev pub box_with : Option String → Option ImportReport → ReportBox
box_with (some e) r = report_error e
box_with none r = box_of r

unfoldable pub report_box : ReportState → ReportBox
report_box s = box_with (or_null s.error) s.report

-- `summary` of `ProductsView`; a value that is missing is shown as '…'.
abbrev pub count_in : (ImportJob → ℕ) → Option ImportJob → Option ℕ
count_in f none = none
count_in f (some j) = some (f j)

unfoldable pub summary : Option ImportJob → List (String × Option ℕ)
summary j =
    ("Total", count_in (λ j. j.total_rows) j)
    ∷ ("Valid", count_in (λ j. j.valid_rows) j)
    ∷ ("Invalid", count_in (λ j. j.invalid_rows) j)
    ∷ ("Processed", count_in (λ j. j.processed_rows) j)
    ∷ ("Dead-lettered", count_in (λ j. j.dead_rows) j)
    ∷ []

-- `Metrics`
pub record Metrics : Type 0 where
  pub ingest_rows_per_sec : Number
  pub catalog_rows_per_sec : Number
  pub samples : ℕ
  pub p50_ms : Number
  pub p95_ms : Number
  pub events_in_flight : ℕ
  pub catalog_lag : ℕ
  pub zero_loss : Option Bool

-- `load`: metrics that arrive, or a request that fails.
unfoldable pub load_metrics : Option Metrics → Option Metrics → Option Metrics
load_metrics none m = m
load_metrics (some n) m = some n

-- A number before the locale's format, with its unit, or a text.
pub data Measure : Type 0 where
  rate : Number → Measure
  milliseconds : Number → Measure
  quantity : ℕ → Measure
  verdict : String → Measure

-- The line below a value.
pub data Hint : Type 0 where
  words : String → Hint
  sampled : ℕ → Hint

pub record MetricCard : Type 0 where
  pub label : String
  pub value : Measure
  pub hint : Hint
  pub good : Bool

abbrev pub verdict_of : Option Bool → String
verdict_of none = "—"
verdict_of (some true) = "verified"
verdict_of (some false) = "in flight"

abbrev pub is_true : Option Bool → Bool
is_true (some true) = true
is_true _ = false

unfoldable pub metric_cards : Metrics → List MetricCard
metric_cards m =
    record {
      label = "Ingest";
      value = rate m.ingest_rows_per_sec;
      hint = words "CSV → Kafka";
      good = false;
    }
    ∷ record {
      label = "Catalog";
      value = rate m.catalog_rows_per_sec;
      hint = words "events → PostgreSQL";
      good = false;
    }
    ∷ record {
      label = "p50 latency";
      value = milliseconds (round m.p50_ms);
      hint = words "event → database";
      good = false;
    }
    ∷ record {
      label = "p95 latency";
      value = milliseconds (round m.p95_ms);
      hint = sampled m.samples;
      good = false;
    }
    ∷ record {
      label = "In flight";
      value = quantity m.events_in_flight;
      hint = words "events on the stream";
      good = false;
    }
    ∷ record {
      label = "Lag";
      value = quantity m.catalog_lag;
      hint = words "catalog-writer group";
      good = false;
    }
    ∷ record {
      label = "Zero loss";
      value = verdict (verdict_of m.zero_loss);
      hint =
          words (if is_true m.zero_loss then "published = confirmed" else "pending confirmation");
      good = is_true m.zero_loss;
    }
    ∷ []

-- Nothing is shown before the first metrics.
abbrev pub metrics_panel : Option Metrics → List MetricCard
metrics_panel none = []
metrics_panel (some m) = metric_cards m
