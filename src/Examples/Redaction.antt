-- ===== src/Examples/Redaction.antt =====
-- Runs of the redactor.
use muthur_collector.Prelude.{
  ◌+◌, ◌*◌, ◌-◌, ◌<◌, ◌≤◌, ◌≡◌, refl, ◌≢◌, some, [], ◌∷◌, text, length, take, ltb, if◌then◌else◌,
  arith, true, inl, inr,
}
use mathlib.Core.List.{foldl}
use muthur_collector.Prelude.Int.{pos, negsuc}
use muthur_collector.Metrics.{zero_counters}
use muthur_collector.Redact.{
  redact, redact_string, dropped_string_marker, dropped_line_marker, budget_marker, new_redactor,
}
use muthur_collector.Redact.Spec.{expected, fitting, cut_notice, sanitize}
use muthur_collector.Redact.Output.{redact-eq-expected}
use muthur_collector.Redact.Accounting.{
  redact-dropped_lines, redact-IsBalanced, count_oversize, category_total,
}
use muthur_collector.Redact.Bounds.{size-redact, size, total_cost}
use muthur_collector.Redact.FailClosed.{
  redact-AllAlike, redact_string_lem, redact-eq-redact_string, new_redactor-caps, replace_with,
}
use muthur_collector.Redact.Counting.{redact-replacements_counter, redact-budget_counter}
use muthur_collector.Examples.Fixtures.{hash_redactor, hash_regexp, hash_regexp-IsLawful, log_lines}

redact_run :
    (redact hash_redactor log_lines zero_counters).0.0
    ≡ text "a[S]b[S]" ∷ dropped_line_marker ∷ budget_marker 2 ∷ []
unfolding redact
redact_run = refl

not_empty : text "a#" ≢ []
not_empty h = ground arith

redact-eq-expected_example :
    (redact hash_redactor log_lines zero_counters).0.0 ≡ expected hash_redactor log_lines
redact-eq-expected_example = redact-eq-expected hash_redactor log_lines zero_counters

redact-dropped_lines_run :
    let run = redact hash_redactor log_lines zero_counters in
    let n = fitting hash_redactor 0 log_lines in
    (run.0.1.total_lines ≡ length log_lines)
    × (run.0.1.dropped_lines
        ≡ count_oversize hash_redactor (take n log_lines) + (length log_lines - n))
redact-dropped_lines_run = redact-dropped_lines hash_redactor log_lines zero_counters

redact-IsBalanced_run :
    let st = (redact hash_redactor log_lines zero_counters).0.1 in
    category_total st.by_category ≡ st.replacements
redact-IsBalanced_run = redact-IsBalanced hash_redactor log_lines zero_counters

size-redact_example :
    let sent = take (fitting hash_redactor 0 log_lines) log_lines in
    (size (redact hash_redactor log_lines zero_counters).0.0
      ≡ total_cost hash_redactor sent
        + length dropped_line_marker * count_oversize hash_redactor sent
        + size (cut_notice (length log_lines - fitting hash_redactor 0 log_lines)))
    × (total_cost hash_redactor sent ≤ 20)
size-redact_example = size-redact hash_redactor log_lines zero_counters

redact-replacements_counter_run :
    let run = redact hash_redactor log_lines zero_counters in
    run.1.redact_replacements_log_line ≡ 0 + run.0.1.replacements
redact-replacements_counter_run = redact-replacements_counter hash_redactor log_lines zero_counters

redact-budget_counter_run :
    (redact hash_redactor log_lines zero_counters).1.lines_dropped_budget
    ≡ 0 + (if ltb (fitting hash_redactor 0 log_lines) 4 then 1 else 0)
redact-budget_counter_run = redact-budget_counter hash_redactor log_lines zero_counters

redact-AllAlike_example :
    redact hash_redactor (text "0123456789" ∷ text "a#" ∷ []) zero_counters
    ≡ redact hash_redactor (text "secret secret" ∷ text "a#" ∷ []) zero_counters
redact-AllAlike_example =
    redact-AllAlike hash_redactor (text "0123456789" ∷ text "a#" ∷ [])
      (text "secret secret" ∷ text "a#" ∷ []) zero_counters (inr (refl, refl), (inl refl, tt))

redact_string_lem_run : (redact_string hash_redactor (text "a#") zero_counters).0 ≡ (
    if ltb 8 (length (text "a#"))
    then dropped_string_marker
    else foldl replace_with (text "a#") hash_redactor.patterns)
redact_string_lem_run =
    redact_string_lem hash_redactor (text "a#") zero_counters (hash_regexp-IsLawful, tt) not_empty

redact-eq-redact_string_run :
    (redact hash_redactor (text "a#" ∷ []) zero_counters).0.0
    ≡ (redact_string hash_redactor (text "a#") zero_counters).0 ∷ []
unfolding sanitize
redact-eq-redact_string_run =
    redact-eq-redact_string hash_redactor (text "a#") zero_counters not_empty (omega arith)
      (omega arith) (omega arith)

new_redactor-caps_run :
    let r =
      new_redactor
        (λ s. hash_regexp)
        (λ s. some hash_regexp)
        (text "a,b")
        true
        (pos 0)
        (pos 7)
        (negsuc 3) in
    (0 < r.max_line_bytes)
    × (0 < r.max_total_bytes)
    × (0 < r.max_string_bytes)
    × (0 < 0 → r.max_line_bytes ≡ 0)
    × (0 < 7 → r.max_total_bytes ≡ 7)
    × (0 < 0 → r.max_string_bytes ≡ 0)
new_redactor-caps_run =
    new_redactor-caps (λ s. hash_regexp) (λ s. some hash_regexp) (text "a,b") true (pos 0) (pos 7)
      (negsuc 3)
