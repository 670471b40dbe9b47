-- ===== src/Redact/Output.antt =====
-- The lines that Redact returns are those that the specification names, and each of them is
-- counted as sent or as dropped.
use muthur_collector.Prelude.{
  ℕ, suc, ◌+◌, ◌-◌, ◌≤◌, ◌≡◌, refl, sym, ap, ◌∙◌, true, false, List, [], ◌∷◌, ◌++◌, append_assoc,
  append-nil, Text, arith, length, length-append, ltb, lt→ltb, ltb-false,
}
use muthur_collector.Metrics.{Counters}
use muthur_collector.Redact.{
  Redactor, LoopState, Round, next, stop, start, redact_round, redact_loop, redact, budget_marker,
}
use muthur_collector.Redact.Spec.{render, cost, fitting, expected_from, expected}
use muthur_collector.Redact.Rounds.{IsSent, IsCut, RoundOk, redact_round-RoundOk}

abbrev pub after_round : Redactor → List Text → Round → LoopState
after_round r rest (next s') = redact_loop r rest s'
after_round r rest (stop s') = s'

pub redact_loop-cons :
    (r : Redactor) (line : Text) (rest : List Text) (s : LoopState)
    → redact_loop r (line ∷ rest) s ≡ after_round r rest (redact_round r line s)
unfolding redact_loop
redact_loop-cons r line rest s = ground arith

-- The lines still to come are those that the counts leave.
pub record IsAligned (r : Redactor) (lines : List Text) (s : LoopState) : Type 0 where
  pub lines_left : s.stats.total_lines ≡ length s.result + length lines
  pub within : s.total_bytes ≤ r.max_total_bytes

pub IsAligned-sent :
    (r : Redactor) (line : Text) (rest : List Text) (s s' : LoopState)
    → IsSent r line s s'
    → IsAligned r (line ∷ rest) s
    → IsAligned r rest s'
IsAligned-sent r line rest s s' sent a = record {
  lines_left = omega (
    arith,
    ap length sent.result,
    length-append s.result (render r line ∷ []),
    a.lines_left,
    sent.total_lines,
  );
  within = sent.fits a.within;
}

module _ (r : Redactor) (t : ℕ) (line : Text) (rest : List Text) where
  pub expected_from-over :
      ltb r.max_total_bytes (t + cost r line) ≡ true
      → expected_from r t (line ∷ rest) ≡ budget_marker (suc (length rest)) ∷ []
  unfolding expected_from fitting
  expected_from-over h =
      let e : suc (length rest) - 0 ≡ suc (length rest) = omega arith in rw h (rw e refl)

  pub expected_from-within :
      ltb r.max_total_bytes (t + cost r line) ≡ false
      → expected_from r t (line ∷ rest) ≡ render r line ∷ expected_from r (t + cost r line) rest
  unfolding expected_from fitting
  expected_from-within h =
      let n = fitting r (t + cost r line) rest in
      let e : suc (length rest) - suc n ≡ length rest - n = omega arith in rw h (rw e refl)

expected-cut :
    (r : Redactor) (line : Text) (rest : List Text) (s s' : LoopState)
    → IsCut r line s s'
    → IsAligned r (line ∷ rest) s
    → s'.result ≡ s.result ++ expected_from r s.total_bytes (line ∷ rest)
expected-cut r line rest s s' cut a =
    let left : s.stats.total_lines - length s.result ≡ suc (length rest) = omega arith in
    rw (expected_from-over r s.total_bytes line rest (lt→ltb _ _ cut.over), ← left) cut.result

expected-sent :
    (r : Redactor) (line : Text) (rest : List Text) (s s' : LoopState)
    → IsSent r line s s'
    → IsAligned r (line ∷ rest) s
    → (redact_loop r rest s').result ≡ s'.result ++ expected_from r s'.total_bytes rest
    → (redact_loop r rest s').result ≡ s.result ++ expected_from r s.total_bytes (line ∷ rest)
expected-sent r line rest s s' sent a ih =
    let fits : ltb r.max_total_bytes (s.total_bytes + cost r line) ≡ false =
      rw (← sent.total_bytes) (ltb-false _ _ (sent.fits a.within)) in
    rw (expected_from-within r s.total_bytes line rest fits, ← sent.total_bytes)
      (ih
        ∙ (rw sent.result
            (append_assoc s.result (render r line ∷ []) (expected_from r s'.total_bytes rest))))

after_round-result :
    (r : Redactor) (line : Text) (rest : List Text) (s : LoopState)
    → IsAligned r (line ∷ rest) s
    → ((s' : LoopState)
        → IsAligned r rest s'
        → (redact_loop r rest s').result ≡ s'.result ++ expected_from r s'.total_bytes rest)
    → (rd : Round) → RoundOk r line s rd
    → (after_round r rest rd).result ≡ s.result ++ expected_from r s.total_bytes (line ∷ rest)
after_round-result r line rest s a ih (next s') sent =
    expected-sent r line rest s s' sent a (ih s' (IsAligned-sent r line rest s s' sent a))
after_round-result r line rest s a ih (stop s') cut = expected-cut r line rest s s' cut a

redact_loop-result :
    (r : Redactor) (lines : List Text) (s : LoopState)
    → IsAligned r lines s
    → (redact_loop r lines s).result ≡ s.result ++ expected_from r s.total_bytes lines
unfolding redact_loop expected_from fitting
redact_loop-result r [] s a = sym (append-nil s.result)
redact_loop-result r (line ∷ rest) s a = rw (redact_loop-cons r line rest s) (
    after_round-result r line rest s a (redact_loop-result r rest) (redact_round r line s)
      (redact_round-RoundOk r line s))

-- Redact sends the lines from the front that fit the byte budget, in order, each with every pattern
-- replaced or, if it is over the line cap, as the constant marker; and then, if lines are left over, one
-- notice with their number. `expected` says this with no state.
pub redact-eq-expected :
    (r : Redactor) (lines : List Text) (m : Counters) → (redact r lines m).0.0 ≡ expected r lines
unfolding redact
redact-eq-expected r lines m =
    redact_loop-result r lines (start lines m)
      (record { lines_left = omega arith; within = omega arith })
