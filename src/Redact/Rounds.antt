-- ===== src/Redact/Rounds.antt =====
-- One round of the loop in Redact, case by case.
use muthur_collector.Prelude.{
  ℕ, ◌+◌, ◌-◌, ◌≤◌, ◌<◌, ◌≡◌, refl, inl, inr, Bool, true, false, List, [], ◌∷◌, ◌++◌, Text, arith,
  length, ltb, if◌then◌else◌, Bool-cases,
}
use muthur_collector.Metrics.{Counters}
use muthur_collector.Redact.Patterns.{Pattern}
use muthur_collector.Redact.{
  Redactor, Stats, LoopState, Round, next, stop, redact_line, apply_pattern, apply_patterns,
  redact_round, budget_marker,
}
use muthur_collector.Redact.Spec.{
  sanitize, hits, is_oversize, render, cost, apply_patterns-text, apply_patterns-hits,
}

-- What the loop over the patterns does to the statistics.
pub record IsTallied (st st' : Stats) (n : ℕ) : Type 0 where
  pub total_lines : st'.total_lines ≡ st.total_lines
  pub redacted_lines : st'.redacted_lines ≡ st.redacted_lines
  pub dropped_lines : st'.dropped_lines ≡ st.dropped_lines
  pub replacements : st'.replacements ≡ st.replacements + n

pub apply_patterns-IsTallied :
    (ps : List Pattern) (line : Text) (n : ℕ) (st : Stats)
    → IsTallied st (apply_patterns ps line n st).2 (hits ps line)
unfolding apply_patterns hits
apply_patterns-IsTallied [] line n st = omega arith
apply_patterns-IsTallied (p ∷ ps) line n st = ground (
  arith,
  apply_patterns-IsTallied ps (apply_pattern p line n st).0 (apply_pattern p line n st).1
      (apply_pattern p line n st).2,
)

module _ (r : Redactor) (line : Text) (st : Stats) (m : Counters) where
  pub redact_line-text : (redact_line r line st m).0.0 ≡ sanitize r.patterns line
  unfolding redact_line
  redact_line-text = ground (arith, apply_patterns-text r.patterns line 0 st)

  pub redact_line-hits : (redact_line r line st m).0.1 ≡ hits r.patterns line
  unfolding redact_line
  redact_line-hits = ground (arith, apply_patterns-hits r.patterns line 0 st)

  pub redact_line-IsTallied : IsTallied st (redact_line r line st m).0.2 (hits r.patterns line)
  unfolding redact_line
  redact_line-IsTallied = ground (arith, apply_patterns-IsTallied r.patterns line 0 st)

-- The line is sent, as itself or as the marker of an oversize line.
pub record IsSent (r : Redactor) (line : Text) (s s' : LoopState) : Type 0 where
  pub result : s'.result ≡ s.result ++ render r line ∷ []
  pub total_bytes : s'.total_bytes ≡ s.total_bytes + cost r line
  pub fits : s.total_bytes ≤ r.max_total_bytes → s'.total_bytes ≤ r.max_total_bytes
  pub total_lines : s'.stats.total_lines ≡ s.stats.total_lines
  pub dropped_lines :
      s'.stats.dropped_lines ≡ s.stats.dropped_lines + (if is_oversize r line then 1 else 0)

-- The budget is spent: the line and all that follow are replaced by one notice.
pub record IsCut (r : Redactor) (line : Text) (s s' : LoopState) : Type 0 where
  pub over : r.max_total_bytes < s.total_bytes + cost r line
  pub result : s'.result ≡ s.result ++ budget_marker (s.stats.total_lines - length s.result) ∷ []
  pub total_bytes : s'.total_bytes ≡ s.total_bytes
  pub total_lines : s'.stats.total_lines ≡ s.stats.total_lines
  pub dropped_lines :
      s'.stats.dropped_lines ≡ s.stats.dropped_lines + (s.stats.total_lines - length s.result)

abbrev pub RoundOk : Redactor → Text → LoopState → Round → Type 0
RoundOk r line s (next s') = IsSent r line s s'
RoundOk r line s (stop s') = IsCut r line s s'

module _ (r : Redactor) (line : Text) (s : LoopState) where
  over_budget : Bool
  over_budget =
      ltb r.max_total_bytes (s.total_bytes + length (redact_line r line s.stats s.counters).0.0)

  round_oversize : is_oversize r line ≡ true → RoundOk r line s (redact_round r line s)
  unfolding redact_round
  round_oversize h = rw h (record {
    result = rw h refl;
    total_bytes = rw h (omega arith);
    fits = λ f. f;
    total_lines = refl;
    dropped_lines = rw h refl;
  })

  round_over :
      is_oversize r line ≡ false → over_budget ≡ true → RoundOk r line s (redact_round r line s)
  unfolding redact_round over_budget
  round_over h e =
      rw (h, e)
        (record {
          over = ground (arith, redact_line-text r line s.stats s.counters);
          result = ground (arith, redact_line-IsTallied r line s.stats s.counters);
          total_bytes = refl;
          total_lines = (redact_line-IsTallied r line s.stats s.counters).total_lines;
          dropped_lines = ground (arith, redact_line-IsTallied r line s.stats s.counters);
        })

  round_within :
      is_oversize r line ≡ false → over_budget ≡ false → RoundOk r line s (redact_round r line s)
  unfolding redact_round over_budget
  round_within h e =
      rw (h, e)
        (record {
          result = rw (h, redact_line-text r line s.stats s.counters) refl;
          total_bytes = rw (h, redact_line-text r line s.stats s.counters) refl;
          fits = λ _. ground arith;
          total_lines = (redact_line-IsTallied r line s.stats s.counters).total_lines;
          dropped_lines = ground (arith, redact_line-IsTallied r line s.stats s.counters);
        })

  pub redact_round-RoundOk : RoundOk r line s (redact_round r line s)
  redact_round-RoundOk = elim (Bool-cases (is_oversize r line)) [
    | inl h ↦ round_oversize h
    | inr h ↦ elim (Bool-cases over_budget) [ inl e ↦ round_over h e | inr e ↦ round_within h e ]
  ]
