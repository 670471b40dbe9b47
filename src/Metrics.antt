-- ===== src/Metrics.antt =====
-- internal/metrics/metrics.go: the counters of the process, as a state that the operations thread.
-- A counter vector has a field for each label value that the program uses. The latency histograms
-- hold measured times and are left out.
pub mod Step
use muthur_collector.Prelude.{ℕ, List, [], Text}

pub record Counters : Type 0 where
  -- AlertsReceived: the status label of each increment, latest first.
  pub alerts_received : List Text
  -- Forwards{result}
  pub forwards_ok : ℕ
  pub forwards_error : ℕ
  pub forward_retries : ℕ
  -- EnrichErrors{source}
  pub enrich_errors_loki : ℕ
  pub enrich_errors_prometheus : ℕ
  pub enrich_errors_events : ℕ
  -- LinesDropped{reason}
  pub lines_dropped_oversize : ℕ
  pub lines_dropped_budget : ℕ
  pub lines_dropped_oversize_string : ℕ
  pub alerts_dropped : ℕ
  -- RedactReplacements{surface}
  pub redact_replacements_log_line : ℕ
  pub redact_replacements_string : ℕ

abbrev pub zero_counters : Counters
zero_counters = record {
  alerts_received = [];
  forwards_ok = 0;
  forwards_error = 0;
  forward_retries = 0;
  enrich_errors_loki = 0;
  enrich_errors_prometheus = 0;
  enrich_errors_events = 0;
  lines_dropped_oversize = 0;
  lines_dropped_budget = 0;
  lines_dropped_oversize_string = 0;
  alerts_dropped = 0;
  redact_replacements_log_line = 0;
  redact_replacements_string = 0;
}

-- Code that returns a value and moves the counters.
abbrev pub Counted : Type 0 → Type 0
Counted A = Counters → A × Counters

infixl 5 ◌>>=◌ ◌>>◌
abbrev pub ◌>>=◌ : {A B : Type 0} → Counted A → (A → Counted B) → Counted B
◌>>=◌ x f m = let (a, m') = x m in f a m'

abbrev pub ◌>>◌ : {A B : Type 0} → Counted A → Counted B → Counted B
x >> y = x >>= λ _. y

abbrev pub pure : {A : Type 0} → A → Counted A
pure a m = (a, m)

-- A counter is moved.
abbrev pub modify : (Counters → Counters) → Counted (Unit {0})
modify f m = (tt, f m)
