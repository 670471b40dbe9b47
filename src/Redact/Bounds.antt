-- ===== src/Redact/Bounds.antt =====
-- The size of what Redact returns.
use muthur_collector.Prelude.{
  ℕ, zero, suc, ◌+◌, ◌-◌, ◌*◌, ◌≤◌, ◌<◌, ◌≡◌, List, [], ◌∷◌, ◌++◌, map, some, Text, arith, length,
  length-append, length-map, length-take, get_elem?, take, ltb, Bool-cases, inl, inr,
}
use muthur_collector.Metrics.{Counters}
use muthur_collector.Redact.{Redactor, redact, dropped_line_marker}
use muthur_collector.Redact.Spec.{render, cost, fitting, cut_notice, expected_from}
use muthur_collector.Redact.Output.{redact-eq-expected}
use muthur_collector.Redact.Accounting.{count_oversize}

unfoldable pub total_cost : Redactor → List Text → ℕ
total_cost r [] = 0
total_cost r (line ∷ rest) = cost r line + total_cost r rest

-- The bytes of all lines.
unfoldable pub size : List Text → ℕ
size [] = 0
size (line ∷ rest) = length line + size rest

size-append : (xs ys : List Text) → size (xs ++ ys) ≡ size xs + size ys
unfolding size
size-append [] ys = omega arith
size-append (x ∷ xs) ys = omega (arith, size-append xs ys)

size-render :
    (r : Redactor) (lines : List Text)
    → size (map (render r) lines)
      ≡ total_cost r lines + length dropped_line_marker * count_oversize r lines
unfolding size total_cost count_oversize
size-render r [] = omega arith
size-render r (line ∷ rest) = ground (arith, size-render r rest)

fitting-total_cost :
    (r : Redactor) (t : ℕ) (lines : List Text)
    → t ≤ r.max_total_bytes
    → t + total_cost r (take (fitting r t lines) lines) ≤ r.max_total_bytes
unfolding fitting total_cost
fitting-total_cost r t [] h = omega arith
fitting-total_cost r t (line ∷ rest) h =
    elim (Bool-cases (ltb r.max_total_bytes (t + cost r line))) [
      | inl e ↦ rw e (omega arith)
      | inr e ↦
          let below : t + cost r line ≤ r.max_total_bytes = ground arith in
          rw e (omega (arith, fitting-total_cost r (t + cost r line) rest below))
    ]

pub fitting-le-length :
    (r : Redactor) (t : ℕ) (lines : List Text) → fitting r t lines ≤ length lines
unfolding fitting
fitting-le-length r t [] = omega arith
fitting-le-length r t (line ∷ rest) = ground (arith, fitting-le-length r (t + cost r line) rest)

fitting-maximal_from :
    (r : Redactor) (t : ℕ) (lines : List Text) (line : Text)
    → get_elem? lines (fitting r t lines) ≡ some line
    → r.max_total_bytes < t + total_cost r (take (fitting r t lines) lines) + cost r line
unfolding fitting total_cost
fitting-maximal_from r t [] line h = cc
fitting-maximal_from r t (x ∷ rest) line h =
    elim (Bool-cases (ltb r.max_total_bytes (t + cost r x))) [
      | inl e ↦ let same : x ≡ line = cc (rw (e, fitting) at h) in rw (e, ← same) (ground arith)
      | inr e ↦
          let ih = fitting-maximal_from r (t + cost r x) rest line (rw (e, fitting) at h) in
          rw e (omega (arith, ih))
    ]

cut_notice-length : (n : ℕ) → length (cut_notice n) ≤ n
cut_notice-length zero = omega arith
cut_notice-length (suc n) = omega arith

-- No more lines are returned than came in.
pub length-redact :
    (r : Redactor) (lines : List Text) (m : Counters) → length (redact r lines m).0.0 ≤ length lines
unfolding expected_from
length-redact r lines m =
    let k = fitting r 0 lines in
    rw (redact-eq-expected r lines m) (
      omega (
        arith,
        length-append (map (render r) (take k lines)) (cut_notice (length lines - k)),
        length-map (take k lines) (render r),
        length-take k lines,
        cut_notice-length (length lines - k),
        fitting-le-length r 0 lines,
      ))

-- The bytes returned are the redacted lines within the budget, which is never exceeded, and the
-- fixed texts of the size guards, which the budget does not count: a marker for each oversize line
-- and the notice of a cut.
pub size-redact :
    (r : Redactor) (lines : List Text) (m : Counters)
    → let sent = take (fitting r 0 lines) lines in
      (size (redact r lines m).0.0
        ≡ total_cost r sent
          + length dropped_line_marker * count_oversize r sent
          + size (cut_notice (length lines - fitting r 0 lines)))
      × (total_cost r sent ≤ r.max_total_bytes)
unfolding expected_from
size-redact r lines m =
    let k = fitting r 0 lines in
    (
      rw (redact-eq-expected r lines m) (
          omega (
            arith,
            size-append (map (render r) (take k lines)) (cut_notice (length lines - k)),
            size-render r (take k lines),
          )),
      omega (arith, fitting-total_cost r 0 lines (omega arith)),
    )
