-- ===== src/Prelude/Quote.antt =====
-- strconv.Quote and the verb %q, on ASCII text: bytes from 0x80 on, the parts of the UTF-8 of printable
-- characters, stand for themselves.
use Prim.Native.Nat.{ℕ, ◌+◌, ◌-◌, ◌*◌, ◌/◌, ◌%◌}
use mathlib.Core.Path.{◌≡◌, refl, ap, sym, ◌∙◌}
use mathlib.Core.Bool.{◌||◌}
use mathlib.Core.Option.{Option, none, some}
use mathlib.Core.List.{[], ◌∷◌, ◌++◌, append_assoc}
use native.Mathlib.Omega.{arith}
use muthur_collector.Prelude.Tests.{ltb, nat_beq, if◌then◌else◌}
use muthur_collector.Prelude.Bytes.{Text, text}
use muthur_collector.Prelude.Hex.{hex_digit}

hex_value : ℕ → ℕ
hex_value c = if ltb c 97 then c - 48 else c - 87

-- The letter of a short escape.
short_escape : ℕ → Option ℕ
short_escape c =
    if nat_beq c b'"'
    then some b'"'
    else if nat_beq c b'\\'
    then some b'\\'
    else if nat_beq c 7
    then some b'a'
    else if nat_beq c 8
    then some b'b'
    else if nat_beq c 12
    then some b'f'
    else if nat_beq c 10
    then some b'n'
    else if nat_beq c 13
    then some b'r'
    else if nat_beq c 9
    then some b't'
    else if nat_beq c 11
    then some b'v'
    else none

unfoldable pub escape : ℕ → Text
unfolding short_escape hex_digit
escape c = elim (short_escape c) [
  | some d ↦ b'\\' ∷ d ∷ []
  | none ↦
      if ltb c 32 || nat_beq c 127
      then b'\\' ∷ b'x' ∷ hex_digit (c / 16) ∷ hex_digit (c % 16) ∷ []
      else c ∷ []
]

unfoldable pub escape_all : Text → Text
unfolding escape
escape_all [] = []
escape_all (c ∷ s) = escape c ++ escape_all s

unfoldable pub quote : Text → Text
unfolding escape_all
quote s = b'"' ∷ (escape_all s ++ b'"' ∷ [])

quote_test : quote (text "a\"b\\\n\u{7f}") ≡ text "\"a\\\"b\\\\\\n\\x7f\""
unfolding quote
quote_test = refl

-- The byte that a short escape stands for.
unescape_short : ℕ → Option ℕ
unescape_short d =
    if nat_beq d b'"'
    then some b'"'
    else if nat_beq d b'\\'
    then some b'\\'
    else if nat_beq d b'a'
    then some 7
    else if nat_beq d b'b'
    then some 8
    else if nat_beq d b'f'
    then some 12
    else if nat_beq d b'n'
    then some 10
    else if nat_beq d b'r'
    then some 13
    else if nat_beq d b't'
    then some 9
    else if nat_beq d b'v'
    then some 11
    else none

decode_hex : Text → Option (ℕ × Text)
decode_hex (h ∷ l ∷ s) = some (hex_value h * 16 + hex_value l, s)
decode_hex _ = none

decode_escape : Text → Option (ℕ × Text)
decode_escape [] = none
decode_escape (d ∷ s) = elim (unescape_short d) [
  | some c ↦ some (c, s)
  | none ↦ if nat_beq d b'x' then decode_hex s else none
]

-- Reads one character of a quoted text; `none` at its end.
decode_one : Text → Option (ℕ × Text)
decode_one [] = none
decode_one (c ∷ s) =
    if nat_beq c b'"' then none else if nat_beq c b'\\' then decode_escape s else some (c, s)

decode_one-escape : (c : ℕ) (rest : Text) → decode_one (escape c ++ rest) ≡ some (c, rest)
unfolding decode_one decode_escape decode_hex unescape_short hex_value escape
decode_one-escape c rest = ground arith

decode_one-escape_nil : (rest : Text) → decode_one (escape_all [] ++ b'"' ∷ rest) ≡ none
unfolding decode_one escape_all
decode_one-escape_nil rest = refl

decode_one-escape_all :
    (c : ℕ) (s rest : Text)
    → decode_one (escape_all (c ∷ s) ++ rest) ≡ some (c, escape_all s ++ rest)
unfolding escape_all
decode_one-escape_all c s rest = rw append_assoc (decode_one-escape c (escape_all s ++ rest))

escape_all-injective :
    (s t a b : Text) → escape_all s ++ b'"' ∷ a ≡ escape_all t ++ b'"' ∷ b → (s ≡ t) × (a ≡ b)
escape_all-injective [] [] a b e = unfold escape_all in (refl, cc e)
escape_all-injective [] (d ∷ t) a b e =
    cc (ap decode_one e, decode_one-escape_all d t (b'"' ∷ b), decode_one-escape_nil a)
escape_all-injective (c ∷ s) [] a b e =
    cc (ap decode_one e, decode_one-escape_all c s (b'"' ∷ a), decode_one-escape_nil b)
escape_all-injective (c ∷ s) (d ∷ t) a b e =
    let parts : some (c, escape_all s ++ b'"' ∷ a) ≡ some (d, escape_all t ++ b'"' ∷ b) =
      sym (decode_one-escape_all c s (b'"' ∷ a))
      ∙ ap decode_one e
      ∙ decode_one-escape_all d t (b'"' ∷ b) in
    let (same, rest) = escape_all-injective s t a b (cc parts) in (cc (parts, same), rest)

-- A quoted text ends where it was closed: what follows cannot be read as part of it, and no two
-- texts are quoted alike.
pub quote-injective : (s t a b : Text) → quote s ++ a ≡ quote t ++ b → (s ≡ t) × (a ≡ b)
unfolding quote
quote-injective s t a b e =
    let l : escape_all s ++ b'"' ∷ [] ++ a ≡ escape_all s ++ b'"' ∷ a =
      append_assoc (escape_all s) (b'"' ∷ []) a in
    let r : escape_all t ++ b'"' ∷ [] ++ b ≡ escape_all t ++ b'"' ∷ b =
      append_assoc (escape_all t) (b'"' ∷ []) b in
    escape_all-injective s t a b (cc (e, l, r))
