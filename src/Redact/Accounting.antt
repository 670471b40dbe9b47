-- ===== src/Redact/Accounting.antt =====
-- The statistics of Redact.
use muthur_collector.Prelude.{
  ℕ, suc, ◌+◌, ◌-◌, ◌≡◌, refl, ◌∙◌, true, false, List, [], ◌∷◌, Text, arith, length, take, ltb,
  lt→ltb, ltb-false, if◌then◌else◌, bytes_eq,
}
use muthur_collector.Metrics.{Counters}
use muthur_collector.Redact.Patterns.{Pattern}
use muthur_collector.Redact.{
  Redactor, Stats, LoopState, Round, next, stop, start, redact_round, redact_loop, redact,
  add_category, apply_pattern, apply_patterns, redact_line,
}
use muthur_collector.Redact.Spec.{is_oversize, cost, fitting}
use muthur_collector.Redact.Rounds.{RoundOk, redact_round-RoundOk}
use muthur_collector.Redact.Output.{after_round, redact_loop-cons, IsAligned, IsAligned-sent}

-- How many of the lines are longer than the cap.
unfoldable pub count_oversize : Redactor → List Text → ℕ
count_oversize r [] = 0
count_oversize r (line ∷ rest) = (if is_oversize r line then 1 else 0) + count_oversize r rest

-- The lines whose content is not sent: the oversize ones that the budget reaches, and all past it.
unfoldable pub lost_from : Redactor → ℕ → List Text → ℕ
unfolding count_oversize fitting
lost_from r t lines =
    count_oversize r (take (fitting r t lines) lines) + (length lines - fitting r t lines)

module _ (r : Redactor) (t : ℕ) (line : Text) (rest : List Text) where
  lost_from-over :
      ltb r.max_total_bytes (t + cost r line) ≡ true
      → lost_from r t (line ∷ rest) ≡ suc (length rest)
  unfolding lost_from
  lost_from-over h = rw h (omega arith)

  lost_from-within :
      ltb r.max_total_bytes (t + cost r line) ≡ false
      → lost_from r t (line ∷ rest)
        ≡ (if is_oversize r line then 1 else 0) + lost_from r (t + cost r line) rest
  unfolding lost_from
  lost_from-within h = rw h (omega arith)

after_round-dropped :
    (r : Redactor) (line : Text) (rest : List Text) (s : LoopState)
    → IsAligned r (line ∷ rest) s
    → ((s' : LoopState)
        → IsAligned r rest s'
        → (redact_loop r rest s').stats.dropped_lines
          ≡ s'.stats.dropped_lines + lost_from r s'.total_bytes rest)
    → (rd : Round) → RoundOk r line s rd
    → (after_round r rest rd).stats.dropped_lines
      ≡ s.stats.dropped_lines + lost_from r s.total_bytes (line ∷ rest)
after_round-dropped r line rest s a ih (next s') sent =
    let fits : ltb r.max_total_bytes (s.total_bytes + cost r line) ≡ false =
      rw (← sent.total_bytes) (ltb-false _ _ (sent.fits a.within)) in
    rw (lost_from-within r s.total_bytes line rest fits, ← sent.total_bytes)
      (omega (arith, ih s' (IsAligned-sent r line rest s s' sent a), sent.dropped_lines))
after_round-dropped r line rest s a ih (stop s') cut =
    rw (lost_from-over r s.total_bytes line rest (lt→ltb _ _ cut.over)) (omega arith)

redact_loop-dropped :
    (r : Redactor) (lines : List Text) (s : LoopState)
    → IsAligned r lines s
    → (redact_loop r lines s).stats.dropped_lines
      ≡ s.stats.dropped_lines + lost_from r s.total_bytes lines
unfolding redact_loop lost_from
redact_loop-dropped r [] s a = omega arith
redact_loop-dropped r (line ∷ rest) s a = rw (redact_loop-cons r line rest s) (
    after_round-dropped r line rest s a (redact_loop-dropped r rest) (redact_round r line s)
      (redact_round-RoundOk r line s))

after_round-total :
    (r : Redactor) (line : Text) (rest : List Text) (s : LoopState)
    → ((s' : LoopState) → (redact_loop r rest s').stats.total_lines ≡ s'.stats.total_lines)
    → (rd : Round) → RoundOk r line s rd
    → (after_round r rest rd).stats.total_lines ≡ s.stats.total_lines
after_round-total r line rest s ih (next s') sent = ih s' ∙ sent.total_lines
after_round-total r line rest s ih (stop s') cut = cut.total_lines

redact_loop-total :
    (r : Redactor) (lines : List Text) (s : LoopState)
    → (redact_loop r lines s).stats.total_lines ≡ s.stats.total_lines
unfolding redact_loop
redact_loop-total r [] s = refl
redact_loop-total r (line ∷ rest) s = rw (redact_loop-cons r line rest s) (
    after_round-total r line rest s (redact_loop-total r rest) (redact_round r line s)
      (redact_round-RoundOk r line s))

-- Every line is counted, and dropped_lines counts exactly the oversize lines within the budget and
-- all lines from the one that would exceed it.
pub redact-dropped_lines :
    (r : Redactor) (lines : List Text) (m : Counters)
    → ((redact r lines m).0.1.total_lines ≡ length lines)
      × ((redact r lines m).0.1.dropped_lines
          ≡ count_oversize r (take (fitting r 0 lines) lines) + (length lines - fitting r 0 lines))
unfolding redact lost_from
redact-dropped_lines r lines m = (
  redact_loop-total r lines (start lines m),
  omega (
    arith,
    redact_loop-dropped r lines (start lines m)
        (record { lines_left = omega arith; within = omega arith }),
  ),
)

-- The sum of the counts of all categories.
unfoldable pub category_total : List (Text × ℕ) → ℕ
category_total [] = 0
category_total ((c, n) ∷ m) = n + category_total m

category_total-add :
    (c : Text) (n : ℕ) (m : List (Text × ℕ))
    → category_total (add_category c n m) ≡ category_total m + n
unfolding category_total add_category
category_total-add c n [] = omega arith
category_total-add c n ((d, k) ∷ m) = ground (arith, category_total-add c n m)

abbrev IsBalanced : Stats → Type 0
IsBalanced st = category_total st.by_category ≡ st.replacements

apply_patterns-IsBalanced :
    (ps : List Pattern) (line : Text) (n : ℕ) (st : Stats)
    → IsBalanced st
    → IsBalanced (apply_patterns ps line n st).2
unfolding apply_patterns
apply_patterns-IsBalanced [] line n st b = b
apply_patterns-IsBalanced (p ∷ ps) line n st b =
    apply_patterns-IsBalanced ps (apply_pattern p line n st).0 (apply_pattern p line n st).1
      (apply_pattern p line n st).2
      (ground (arith, category_total-add p.category (p.regex.count_matches line) st.by_category))

abbrev RoundBalanced : Round → Type 0
RoundBalanced (next s) = IsBalanced s.stats
RoundBalanced (stop s) = IsBalanced s.stats

redact_round-RoundBalanced :
    (r : Redactor) (line : Text) (s : LoopState)
    → IsBalanced s.stats
    → RoundBalanced (redact_round r line s)
unfolding redact_round redact_line
redact_round-RoundBalanced r line s b =
    ground (arith, apply_patterns-IsBalanced r.patterns line 0 s.stats b)

after_round-IsBalanced :
    (r : Redactor) (rest : List Text)
    → ((s : LoopState) → IsBalanced s.stats → IsBalanced (redact_loop r rest s).stats)
    → (rd : Round) → RoundBalanced rd
    → IsBalanced (after_round r rest rd).stats
after_round-IsBalanced r rest ih (next s) b = ih s b
after_round-IsBalanced r rest ih (stop s) b = b

redact_loop-IsBalanced :
    (r : Redactor) (lines : List Text) (s : LoopState)
    → IsBalanced s.stats
    → IsBalanced (redact_loop r lines s).stats
unfolding redact_loop
redact_loop-IsBalanced r [] s b = b
redact_loop-IsBalanced r (line ∷ rest) s b = rw (redact_loop-cons r line rest s) (
    after_round-IsBalanced r rest (redact_loop-IsBalanced r rest) (redact_round r line s)
      (redact_round-RoundBalanced r line s b))

-- The replacements by category add up to the total number of replacements.
pub redact-IsBalanced :
    (r : Redactor) (lines : List Text) (m : Counters)
    → category_total (redact r lines m).0.1.by_category ≡ (redact r lines m).0.1.replacements
unfolding redact category_total
redact-IsBalanced r lines m = redact_loop-IsBalanced r lines (start lines m) refl
