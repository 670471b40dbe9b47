-- ===== src/Redact.antt =====
-- internal/redact/redactor.go
pub mod Patterns
pub mod Messages
pub mod Spec
pub mod Rounds
pub mod Output
pub mod Accounting
pub mod Bounds
pub mod FailClosed
pub mod Counting
use muthur_collector.Prelude.{
  ℕ, zero, suc, ◌+◌, ◌-◌, ◌*◌, ◌<◌, ◌≡◌, Bool, true, false, ◌||◌, Option, List, [], ◌∷◌, ◌++◌, Text,
  text, decimal, length, ltb, ◌==◌, bytes_eq, if◌then◌else◌,
}
use muthur_collector.Prelude.Int.{ℤ, pos, negsuc, leb_ℤ, pos_part, neg_part}
use muthur_collector.Metrics.{Counters, Counted, ◌>>=◌, ◌>>◌, pure, modify}
use Patterns.{Regexp, Pattern}
unfoldable pub use Patterns.{builtin_patterns, parse_extra_patterns}

abbrev pub default_max_line_bytes : ℕ
default_max_line_bytes = 8 * 1024

abbrev pub default_max_total_bytes : ℕ
default_max_total_bytes = 256 * 1024

abbrev pub default_max_string_bytes : ℕ
default_max_string_bytes = 16 * 1024

abbrev pub dropped_string_marker : Text
dropped_string_marker = text "[redacted: string dropped by size guard]"

abbrev pub dropped_line_marker : Text
dropped_line_marker = text "[redacted: line dropped by size guard]"

-- The line that stands for the `n` lines past the budget; the dash is the three bytes of U+2014.
unfoldable pub budget_marker : ℕ → Text
unfolding decimal
budget_marker n =
    text "[redacted: "
    ++ decimal n
    ++ text " further lines dropped "
    ++ (0xe2 ∷ 0x80 ∷ 0x94 ∷ [])
    ++ text " payload byte budget reached]"

pub record Stats : Type 0 where
  pub total_lines : ℕ
  pub redacted_lines : ℕ
  pub dropped_lines : ℕ
  pub replacements : ℕ
  pub by_category : List (Text × ℕ)

-- The logger is left out: it only prints.
pub record Redactor : Type 0 where
  pub patterns : List Pattern
  pub max_line_bytes : ℕ
  pub max_total_bytes : ℕ
  pub max_string_bytes : ℕ
  pub log_stats : Bool

-- A cap as New settles it: a value that is not positive falls back to the default.
abbrev cap_or_default : ℤ → ℕ → ℕ
cap_or_default (pos zero) d = d
cap_or_default (pos (suc n)) d = suc n
cap_or_default (negsuc n) d = d

unfoldable pub new_redactor :
    (Text → Regexp) → (Text → Option Regexp) → Text → Bool → ℤ → ℤ → ℤ → Redactor
unfolding builtin_patterns parse_extra_patterns
new_redactor must_compile compile extra log_stats max_line max_total max_string = record {
  patterns = builtin_patterns must_compile ++ parse_extra_patterns compile extra;
  max_line_bytes = cap_or_default max_line default_max_line_bytes;
  max_total_bytes = cap_or_default max_total default_max_total_bytes;
  max_string_bytes = cap_or_default max_string default_max_string_bytes;
  log_stats = log_stats;
}

-- `m[category] += n`
unfoldable pub add_category : Text → ℕ → List (Text × ℕ) → List (Text × ℕ)
add_category c n [] = (c, n) ∷ []
add_category c n ((d, k) ∷ m) = if d == c then (d, k + n) ∷ m else (d, k) ∷ add_category c n m

-- The body of the loop over the patterns in redactLine.
unfoldable pub apply_pattern : Pattern → Text → ℕ → Stats → Text × ℕ × Stats
unfolding add_category
apply_pattern p line n stats =
    let k = p.regex.count_matches line in
    if ltb 0 k
    then (
      p.regex.replace_all line p.replacement,
      n + k,
      record stats {
        replacements = stats.replacements + k;
        by_category = add_category p.category k stats.by_category;
      },
    )
    else (line, n, stats)

unfoldable pub apply_patterns : List Pattern → Text → ℕ → Stats → Text × ℕ × Stats
unfolding apply_pattern
apply_patterns [] line n stats = (line, n, stats)
apply_patterns (p ∷ ps) line n stats =
    let (line', n', stats') = apply_pattern p line n stats in apply_patterns ps line' n' stats'

unfoldable pub redact_line : Redactor → Text → Stats → Counters → (Text × ℕ × Stats) × Counters
unfolding apply_patterns
redact_line r line stats m =
    let (line', n, stats') = apply_patterns r.patterns line 0 stats in
    if ltb 0 n
    then (
      (line', n, stats'),
      record m { redact_replacements_log_line = m.redact_replacements_log_line + n },
    )
    else ((line', n, stats'), m)

-- The variables of the loop in Redact.
pub record LoopState : Type 0 where
  pub result : List Text
  pub total_bytes : ℕ
  pub stats : Stats
  pub counters : Counters

-- How the body of the loop ends: `next` for the end of the round and `continue`, `stop` for `break`.
pub data Round : Type 0 where
  next : LoopState → Round
  stop : LoopState → Round

abbrev within_line_cap : Redactor → Text → LoopState → (Text × ℕ × Stats) × Counters → Round
within_line_cap r line s ((redacted, n, stats), m) =
    if ltb r.max_total_bytes (s.total_bytes + length redacted)
    then stop (record {
      result = s.result ++ budget_marker (stats.total_lines - length s.result) ∷ [];
      total_bytes = s.total_bytes;
      stats = record stats {
        dropped_lines = stats.dropped_lines + (stats.total_lines - length s.result);
      };
      counters = record m { lines_dropped_budget = m.lines_dropped_budget + 1 };
    })
    else next (record {
      result = s.result ++ redacted ∷ [];
      total_bytes = s.total_bytes + length redacted;
      stats = record stats {
        redacted_lines = if ltb 0 n then stats.redacted_lines + 1 else stats.redacted_lines;
      };
      counters = m;
    })

unfoldable pub redact_round : Redactor → Text → LoopState → Round
redact_round r line s =
    if ltb r.max_line_bytes (length line)
    then next (record s {
      result = s.result ++ dropped_line_marker ∷ [];
      stats = record s.stats { dropped_lines = s.stats.dropped_lines + 1 };
      counters = record s.counters {
        lines_dropped_oversize = s.counters.lines_dropped_oversize + 1;
      };
    })
    else within_line_cap r line s (redact_line r line s.stats s.counters)

unfoldable pub redact_loop : Redactor → List Text → LoopState → LoopState
redact_loop r [] s = s
redact_loop r (line ∷ rest) s = elim (redact_round r line s) [
  | next s' ↦ redact_loop r rest s'
  | stop s' ↦ s'
]

abbrev pub start : List Text → Counters → LoopState
start lines m = record {
  result = [];
  total_bytes = 0;
  stats = record {
    total_lines = length lines;
    redacted_lines = 0;
    dropped_lines = 0;
    replacements = 0;
    by_category = [];
  };
  counters = m;
}

unfoldable pub redact : Redactor → List Text → Counted (List Text × Stats)
unfolding redact_loop redact_round redact_line
redact r lines m = let s = redact_loop r lines (start lines m) in ((s.result, s.stats), s.counters)

-- The body of the loop over the patterns in RedactString.
unfoldable pub replace_pattern : Pattern → Text → ℕ → Text × ℕ
replace_pattern p s n =
    let k = p.regex.count_matches s in
    if ltb 0 k then (p.regex.replace_all s p.replacement, n + k) else (s, n)

unfoldable pub replace_patterns : List Pattern → Text → ℕ → Text × ℕ
unfolding replace_pattern
replace_patterns [] s n = (s, n)
replace_patterns (p ∷ ps) s n = let (s', n') = replace_pattern p s n in replace_patterns ps s' n'

unfoldable pub redact_string : Redactor → Text → Counted Text
unfolding replace_patterns
redact_string r s m =
    if s == []
    then (s, m)
    else if ltb r.max_string_bytes (length s)
    then (
      dropped_string_marker,
      record m { lines_dropped_oversize_string = m.lines_dropped_oversize_string + 1 },
    )
    else (let (s', n) = replace_patterns r.patterns s 0 in
        if ltb 0 n
        then (s', record m { redact_replacements_string = m.redact_replacements_string + n })
        else (s', m))
