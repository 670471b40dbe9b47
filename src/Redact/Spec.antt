-- ===== src/Redact/Spec.antt =====
-- What redaction should do, with no loop state: one line at a time, and how far the budget reaches.
use muthur_collector.Prelude.{
  ℕ, zero, suc, ◌+◌, ◌-◌, ◌≡◌, refl, Bool, List, [], ◌∷◌, ◌++◌, map, Text, arith, length, take, ltb,
  if◌then◌else◌,
}
use muthur_collector.Redact.Patterns.{Pattern}
use muthur_collector.Redact.{
  Redactor, Stats, dropped_line_marker, budget_marker, apply_pattern, apply_patterns,
  replace_pattern, replace_patterns,
}

-- One pattern, then all of them in order.
abbrev pub rewrite : Pattern → Text → Text
rewrite p s = if ltb 0 (p.regex.count_matches s) then p.regex.replace_all s p.replacement else s

unfoldable pub sanitize : List Pattern → Text → Text
sanitize [] s = s
sanitize (p ∷ ps) s = sanitize ps (rewrite p s)

-- The matches met on the way.
unfoldable pub hits : List Pattern → Text → ℕ
hits [] s = 0
hits (p ∷ ps) s = p.regex.count_matches s + hits ps (rewrite p s)

abbrev pub is_oversize : Redactor → Text → Bool
is_oversize r line = ltb r.max_line_bytes (length line)

-- What is sent for a line that the budget reaches, and what that costs.
abbrev pub render : Redactor → Text → Text
render r line = if is_oversize r line then dropped_line_marker else sanitize r.patterns line

abbrev pub cost : Redactor → Text → ℕ
cost r line = if is_oversize r line then 0 else length (sanitize r.patterns line)

-- How many of the lines fit when `t` bytes are used already.
unfoldable pub fitting : Redactor → ℕ → List Text → ℕ
fitting r t [] = 0
fitting r t (line ∷ rest) =
    let n = fitting r (t + cost r line) rest in
    if ltb r.max_total_bytes (t + cost r line) then 0 else suc n

-- The last line of a payload whose budget ran out with `n` lines left.
abbrev pub cut_notice : ℕ → List Text
cut_notice zero = []
cut_notice (suc n) = budget_marker (suc n) ∷ []

unfoldable pub expected_from : Redactor → ℕ → List Text → List Text
unfolding fitting
expected_from r t lines =
    map (render r) (take (fitting r t lines) lines) ++ cut_notice (length lines - fitting r t lines)

abbrev pub expected : Redactor → List Text → List Text
expected r lines = expected_from r 0 lines

-- The two loops over the patterns compute `sanitize` and `hits`.
pub apply_patterns-text :
    (ps : List Pattern) (line : Text) (n : ℕ) (st : Stats)
    → (apply_patterns ps line n st).0 ≡ sanitize ps line
unfolding apply_patterns sanitize
apply_patterns-text [] line n st = refl
apply_patterns-text (p ∷ ps) line n st = ground (
  arith,
  apply_patterns-text ps (apply_pattern p line n st).0 (apply_pattern p line n st).1
      (apply_pattern p line n st).2,
)

pub apply_patterns-hits :
    (ps : List Pattern) (line : Text) (n : ℕ) (st : Stats)
    → (apply_patterns ps line n st).1 ≡ n + hits ps line
unfolding apply_patterns hits
apply_patterns-hits [] line n st = omega arith
apply_patterns-hits (p ∷ ps) line n st = ground (
  arith,
  apply_patterns-hits ps (apply_pattern p line n st).0 (apply_pattern p line n st).1
      (apply_pattern p line n st).2,
)

pub replace_patterns-text :
    (ps : List Pattern) (s : Text) (n : ℕ) → (replace_patterns ps s n).0 ≡ sanitize ps s
unfolding replace_patterns sanitize
replace_patterns-text [] s n = refl
replace_patterns-text (p ∷ ps) s n =
    ground (arith, replace_patterns-text ps (replace_pattern p s n).0 (replace_pattern p s n).1)

pub replace_patterns-hits :
    (ps : List Pattern) (s : Text) (n : ℕ) → (replace_patterns ps s n).1 ≡ n + hits ps s
unfolding replace_patterns hits
replace_patterns-hits [] s n = omega arith
replace_patterns-hits (p ∷ ps) s n =
    ground (arith, replace_patterns-hits ps (replace_pattern p s n).0 (replace_pattern p s n).1)
