-- ===== src/Redact/Counting.antt =====
-- The metrics that Redact moves, against the statistics that it returns.
use muthur_collector.Prelude.{
  ℕ, ◌+◌, ◌≤◌, ◌≡◌, Bool, true, false, List, [], ◌∷◌, Text, arith, length, ltb, ltb-false,
  if◌then◌else◌,
}
use muthur_collector.Metrics.{Counters}
use muthur_collector.Redact.{
  Redactor, Stats, LoopState, Round, next, stop, start, redact_round, redact_loop, redact,
  redact_line,
}
use muthur_collector.Redact.Spec.{cost, fitting, apply_patterns-hits}
use muthur_collector.Redact.Rounds.{apply_patterns-IsTallied, redact_line-text}
use muthur_collector.Redact.Output.{after_round, redact_loop-cons}

-- The counter of replacements runs along with the statistics, from an offset.
abbrev InStep : ℕ → LoopState → Type 0
InStep base s = s.counters.redact_replacements_log_line ≡ base + s.stats.replacements

abbrev RoundInStep : ℕ → Round → Type 0
RoundInStep base (next s) = InStep base s
RoundInStep base (stop s) = InStep base s

redact_line-in_step :
    (r : Redactor) (line : Text) (st : Stats) (m : Counters) (base : ℕ)
    → m.redact_replacements_log_line ≡ base + st.replacements
    → (redact_line r line st m).1.redact_replacements_log_line
      ≡ base + (redact_line r line st m).0.2.replacements
unfolding redact_line
redact_line-in_step r line st m base h =
    ground (
      arith,
      apply_patterns-hits r.patterns line 0 st,
      apply_patterns-IsTallied r.patterns line 0 st,
    )

redact_round-RoundInStep :
    (r : Redactor) (line : Text) (s : LoopState) (base : ℕ)
    → InStep base s
    → RoundInStep base (redact_round r line s)
unfolding redact_round
redact_round-RoundInStep r line s base h =
    ground (arith, redact_line-in_step r line s.stats s.counters base h)

after_round-InStep :
    (r : Redactor) (rest : List Text) (base : ℕ)
    → ((s : LoopState) → InStep base s → InStep base (redact_loop r rest s))
    → (rd : Round) → RoundInStep base rd
    → InStep base (after_round r rest rd)
after_round-InStep r rest base ih (next s) h = ih s h
after_round-InStep r rest base ih (stop s) h = h

redact_loop-InStep :
    (r : Redactor) (lines : List Text) (base : ℕ) (s : LoopState)
    → InStep base s
    → InStep base (redact_loop r lines s)
unfolding redact_loop
redact_loop-InStep r [] base s h = h
redact_loop-InStep r (line ∷ rest) base s h = rw (redact_loop-cons r line rest s) (
    after_round-InStep r rest base (redact_loop-InStep r rest base) (redact_round r line s)
      (redact_round-RoundInStep r line s base h))

-- The log-line replacement counter grows by exactly the replacements of the statistics.
pub redact-replacements_counter :
    (r : Redactor) (lines : List Text) (m : Counters)
    → (redact r lines m).1.redact_replacements_log_line
      ≡ m.redact_replacements_log_line + (redact r lines m).0.1.replacements
unfolding redact
redact-replacements_counter r lines m =
    redact_loop-InStep r lines m.redact_replacements_log_line (start lines m) (omega arith)

redact_line-dropped_counters :
    (r : Redactor) (line : Text) (st : Stats) (m : Counters)
    → (redact_line r line st m).1.lines_dropped_budget ≡ m.lines_dropped_budget
unfolding redact_line
redact_line-dropped_counters r line st m = ground arith

abbrev over : Redactor → ℕ → Text → Bool
over r t line = ltb r.max_total_bytes (t + cost r line)

-- What a round does to the budget counter and the bytes used.
abbrev RoundCounts : Redactor → Text → LoopState → Round → Type 0
RoundCounts r line s (next s') =
    (s'.counters.lines_dropped_budget ≡ s.counters.lines_dropped_budget)
    × (s'.total_bytes ≡ s.total_bytes + cost r line)
    × (s'.total_bytes ≤ r.max_total_bytes)
RoundCounts r line s (stop s') =
    (s'.counters.lines_dropped_budget ≡ s.counters.lines_dropped_budget + 1)
    × (over r s.total_bytes line ≡ true)

redact_round-RoundCounts :
    (r : Redactor) (line : Text) (s : LoopState)
    → s.total_bytes ≤ r.max_total_bytes
    → RoundCounts r line s (redact_round r line s)
unfolding redact_round
redact_round-RoundCounts r line s w = ground (
  arith,
  redact_line-dropped_counters r line s.stats s.counters,
  redact_line-text r line s.stats s.counters,
)

abbrev cut_count : Redactor → ℕ → List Text → ℕ
cut_count r t lines = if ltb (fitting r t lines) (length lines) then 1 else 0

after_round-cut_count :
    (r : Redactor) (line : Text) (rest : List Text) (s : LoopState)
    → ((s' : LoopState)
        → s'.total_bytes ≤ r.max_total_bytes
        → (redact_loop r rest s').counters.lines_dropped_budget
          ≡ s'.counters.lines_dropped_budget + cut_count r s'.total_bytes rest)
    → (rd : Round) → RoundCounts r line s rd
    → (after_round r rest rd).counters.lines_dropped_budget
      ≡ s.counters.lines_dropped_budget + cut_count r s.total_bytes (line ∷ rest)
unfolding fitting
after_round-cut_count r line rest s ih (next s') (same, used, within) =
    let fits : over r s.total_bytes line ≡ false = rw (← used) (ltb-false _ _ within) in
    rw (fits, ← used) (ground (arith, ih s' within))
after_round-cut_count r line rest s ih (stop s') (more, e) = rw e (ground arith)

redact_loop-cut_count :
    (r : Redactor) (lines : List Text) (s : LoopState)
    → s.total_bytes ≤ r.max_total_bytes
    → (redact_loop r lines s).counters.lines_dropped_budget
      ≡ s.counters.lines_dropped_budget + cut_count r s.total_bytes lines
unfolding redact_loop fitting
redact_loop-cut_count r [] s w = omega arith
redact_loop-cut_count r (line ∷ rest) s w = rw (redact_loop-cons r line rest s) (
    after_round-cut_count r line rest s (redact_loop-cut_count r rest) (redact_round r line s)
      (redact_round-RoundCounts r line s w))

-- The counter of lines dropped by the budget grows by one when the budget cuts the batch, however
-- many lines are cut off, and stays when it does not.
pub redact-budget_counter :
    (r : Redactor) (lines : List Text) (m : Counters)
    → (redact r lines m).1.lines_dropped_budget
      ≡ m.lines_dropped_budget + (if ltb (fitting r 0 lines) (length lines) then 1 else 0)
unfolding redact
redact-budget_counter r lines m = redact_loop-cut_count r lines (start lines m) (omega arith)
