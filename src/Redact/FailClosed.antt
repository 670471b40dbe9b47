-- ===== src/Redact/FailClosed.antt =====
-- The size guards fail closed: what they drop leaves no trace but the fixed marker.
use muthur_collector.Prelude.{
  suc, ◌+◌, ◌≤◌, ◌<◌, ◌≡◌, refl, sym, ap, ◌≢◌, ◌⊎◌, inl, inr, Bool, true, false, List, [], ◌∷◌,
  Option, Text, arith, length, ltb, ltb-false, if◌then◌else◌, Bool-cases, bytes_eq, text_eq_iff,
  ◌==◌,
}
use muthur_collector.Prelude.Int.{ℤ, pos_part}
use muthur_collector.Prelude.All.{All}
use mathlib.Core.List.{foldl}
use muthur_collector.Metrics.{Counters}
use muthur_collector.Redact.Patterns.{Regexp, Pattern}
use muthur_collector.Redact.{
  Redactor, LoopState, Round, start, redact_round, redact_loop, redact, redact_string, new_redactor,
  dropped_string_marker,
}
use muthur_collector.Redact.Spec.{
  sanitize, rewrite, is_oversize, cost, fitting, expected_from, replace_patterns-text,
}
use muthur_collector.Redact.Output.{after_round, redact_loop-cons, redact-eq-expected}

-- Two lines that differ only in content past the cap.
abbrev pub Alike : Redactor → Text → Text → Type 0
Alike r x y = (x ≡ y) ⊎ ((is_oversize r x ≡ true) × (is_oversize r y ≡ true))

abbrev pub AllAlike : Redactor → List Text → List Text → Type 0
AllAlike r [] [] = Unit
AllAlike r [] (y ∷ ys) = ⊥
AllAlike r (x ∷ xs) [] = ⊥
AllAlike r (x ∷ xs) (y ∷ ys) = Alike r x y × AllAlike r xs ys

redact_round-Alike :
    (r : Redactor) (x y : Text) (s : LoopState)
    → Alike r x y
    → redact_round r x s ≡ redact_round r y s
unfolding redact_round
redact_round-Alike r x y s (inl e) = rw e refl
redact_round-Alike r x y s (inr (h, k)) = rw (h, k) refl

after_round-AllAlike :
    (r : Redactor) (xs ys : List Text)
    → ((s : LoopState) → redact_loop r xs s ≡ redact_loop r ys s)
    → (rd : Round) → after_round r xs rd ≡ after_round r ys rd
after_round-AllAlike r xs ys ih (Round.next s) = ih s
after_round-AllAlike r xs ys ih (Round.stop s) = refl

redact_loop-AllAlike :
    (r : Redactor) (xs ys : List Text) (s : LoopState)
    → AllAlike r xs ys
    → redact_loop r xs s ≡ redact_loop r ys s
redact_loop-AllAlike r [] [] s a = refl
redact_loop-AllAlike r [] (y ∷ ys) s a = elim a [ ]
redact_loop-AllAlike r (x ∷ xs) [] s a = elim a [ ]
redact_loop-AllAlike r (x ∷ xs) (y ∷ ys) s a =
    rw (redact_loop-cons r x xs s, redact_loop-cons r y ys s, redact_round-Alike r x y s a.0)
      (after_round-AllAlike r xs ys (λ s'. redact_loop-AllAlike r xs ys s' a.1)
        (redact_round r y s))

length-AllAlike : (r : Redactor) (xs ys : List Text) → AllAlike r xs ys → length xs ≡ length ys
length-AllAlike r [] [] a = refl
length-AllAlike r [] (y ∷ ys) a = elim a [ ]
length-AllAlike r (x ∷ xs) [] a = elim a [ ]
length-AllAlike r (x ∷ xs) (y ∷ ys) a = ap suc (length-AllAlike r xs ys a.1)

-- Two batches of lines that differ only in the content of lines longer than the cap give the same
-- lines, the same statistics and the same counters: nothing of such a line gets out.
pub redact-AllAlike :
    (r : Redactor) (xs ys : List Text) (m : Counters)
    → AllAlike r xs ys
    → redact r xs m ≡ redact r ys m
unfolding redact
redact-AllAlike r xs ys m a =
    rw (length-AllAlike r xs ys a, redact_loop-AllAlike r xs ys (start ys m) a) refl

-- A free-text field as it is sent.
abbrev pub clean_string : Redactor → Text → Text
clean_string r s =
    if s == []
    then s
    else if ltb r.max_string_bytes (length s)
    then dropped_string_marker
    else sanitize r.patterns s

pub redact_string-eq-clean_string :
    (r : Redactor) (s : Text) (m : Counters) → (redact_string r s m).0 ≡ clean_string r s
unfolding redact_string
redact_string-eq-clean_string r s m = ground (arith, replace_patterns-text r.patterns s 0)

-- The engine leaves a text without a match alone.
pub record IsLawful (re : Regexp) : Type 0 where
  pub no_match : (s t : Text) → re.count_matches s ≡ 0 → re.replace_all s t ≡ s

abbrev pub replace_with : Text → Pattern → Text
replace_with s p = p.regex.replace_all s p.replacement

pub sanitize-eq-foldl :
    (ps : List Pattern) (s : Text)
    → All (λ p. IsLawful p.regex) ps
    → sanitize ps s ≡ foldl replace_with s ps
unfolding sanitize
sanitize-eq-foldl [] s l = refl
sanitize-eq-foldl (p ∷ ps) s l =
    let step : rewrite p s ≡ replace_with s p =
      elim (Bool-cases (ltb 0 (p.regex.count_matches s))) [
        | inl h ↦ rw h refl
        | inr h ↦ rw h (sym (l.0.no_match s p.replacement (ground arith)))
      ] in
    rw step (sanitize-eq-foldl ps (replace_with s p) l.1)

-- A free-text field is sent with all patterns replaced, first to last; one longer than the cap is
-- sent as the fixed marker, whatever it holds.
pub redact_string_lem :
    (r : Redactor) (s : Text) (m : Counters)
    → All (λ p. IsLawful p.regex) r.patterns
    → s ≢ []
    → (redact_string r s m).0 ≡ (
        if ltb r.max_string_bytes (length s)
        then dropped_string_marker
        else foldl replace_with s r.patterns)
unfolding redact_string
redact_string_lem r s m l ne =
    rw (← sanitize-eq-foldl r.patterns s l)
      (ground (arith, text_eq_iff s [], replace_patterns-text r.patterns s 0))

redact_string-text :
    (r : Redactor) (s : Text) (m : Counters)
    → s ≢ []
    → length s ≤ r.max_string_bytes
    → (redact_string r s m).0 ≡ sanitize r.patterns s
unfolding redact_string
redact_string-text r s m ne h =
    ground (arith, text_eq_iff s [], replace_patterns-text r.patterns s 0)

expected-one :
    (r : Redactor) (s : Text)
    → length s ≤ r.max_line_bytes
    → length (sanitize r.patterns s) ≤ r.max_total_bytes
    → expected_from r 0 (s ∷ []) ≡ sanitize r.patterns s ∷ []
unfolding expected_from fitting
expected-one r s h k =
    let small : is_oversize r s ≡ false = ltb-false _ _ h in
    let fits : ltb r.max_total_bytes (0 + cost r s) ≡ false = ground arith in rw (fits, small) refl

-- A text within all caps is redacted alike as a log line and as a field.
pub redact-eq-redact_string :
    (r : Redactor) (s : Text) (m : Counters)
    → s ≢ []
    → length s ≤ r.max_line_bytes
    → length s ≤ r.max_string_bytes
    → length (sanitize r.patterns s) ≤ r.max_total_bytes
    → (redact r (s ∷ []) m).0.0 ≡ (redact_string r s m).0 ∷ []
redact-eq-redact_string r s m ne line string total =
    rw (redact-eq-expected r (s ∷ []) m, redact_string-text r s m ne string)
      (expected-one r s line total)

-- The caps of a new redactor are positive: each is the configured one if that is positive, and the
-- default if not.
pub new_redactor-caps :
    (must_compile : Text → Regexp) (compile : Text → Option Regexp) (extra : Text)
    (log_stats : Bool) (line total string : ℤ)
    → let r = new_redactor must_compile compile extra log_stats line total string in
      (0 < r.max_line_bytes)
      × (0 < r.max_total_bytes)
      × (0 < r.max_string_bytes)
      × (0 < pos_part line → r.max_line_bytes ≡ pos_part line)
      × (0 < pos_part total → r.max_total_bytes ≡ pos_part total)
      × (0 < pos_part string → r.max_string_bytes ≡ pos_part string)
unfolding new_redactor
new_redactor-caps must_compile compile extra log_stats line total string = ground arith
