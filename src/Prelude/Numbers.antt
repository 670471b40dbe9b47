-- ===== src/Prelude/Numbers.antt =====
-- strconv.FormatInt and ParseInt in base 10, and the big-endian bytes of a math/big number.
use muthur_collector.Prelude.Lists.{length}
use mathlib.Core.Path.{◌≡◌, refl, ap, ◌∙◌}
use mathlib.Core.Logic.{inl, inr, ◌⊎◌}
use mathlib.Core.Bool.{true, false, ◌&&◌}
use mathlib.Core.List.{[], ◌∷◌}
use mathlib.Core.Option.{Option, none, some}
use Prim.Native.Nat.{ℕ, zero, suc, ◌+◌, ◌-◌, ◌*◌, ◌/◌, ◌%◌, ◌^◌, ◌<◌, ◌≤◌}
use native.Mathlib.Omega.{arith}
use native.Mathlib.Nat.{pow-suc}
use muthur_collector.Prelude.All.{All}
use muthur_collector.Prelude.Bytes.{Text, decimal, decimal_onto}
use muthur_collector.Prelude.Int.{ℤ, pos, negsuc, pos_part, neg_part}
use muthur_collector.Prelude.Separators.{IsFree}
use muthur_collector.Prelude.Tests.{ltb, leb, if◌then◌else◌, Bool-cases}
use muthur_collector.Prelude.Equality.{◌==◌, nat_eq}

unfoldable pub format_int : ℤ → Text
unfolding decimal
format_int (pos n) = decimal n
format_int (negsuc n) = b'-' ∷ decimal (suc n)

-- The digits from a value on; `none` at any other byte.
unfoldable pub parse_digits : ℕ → Text → Option ℕ
parse_digits v [] = some v
parse_digits v (c ∷ s) =
    let rest = parse_digits (v * 10 + (c - b'0')) s in
    if leb b'0' c && leb c b'9' then rest else none

-- At least one digit.
abbrev parse_nat : Text → Option ℕ
parse_nat [] = none
parse_nat (c ∷ s) = parse_digits 0 (c ∷ s)

abbrev pub max_int64 : ℕ
max_int64 = 9_223_372_036_854_775_807

abbrev in_range : Option ℕ → Option ℤ
in_range none = none
in_range (some n) = if leb n max_int64 then some (pos n) else none

abbrev negated : ℕ → ℤ
negated zero = pos 0
negated (suc n) = negsuc n

abbrev in_range_negated : Option ℕ → Option ℤ
in_range_negated none = none
in_range_negated (some n) = if leb n (max_int64 + 1) then some (negated n) else none

-- `none` is a syntax or a range error.
unfoldable pub parse_int : Text → Option ℤ
unfolding parse_digits
parse_int [] = none
parse_int (c ∷ s) =
    if c == b'-'
    then in_range_negated (parse_nat s)
    else if c == b'+'
    then in_range (parse_nat s)
    else in_range (parse_nat (c ∷ s))

-- FillBytes, of a number that fits.
fill_onto : ℕ → ℕ → Text → Text
fill_onto zero n acc = acc
fill_onto (suc size) n acc = fill_onto size (n / 256) ((n % 256) ∷ acc)

unfoldable pub fill_bytes : ℕ → ℕ → Text
unfolding fill_onto
fill_bytes size n = fill_onto size n []

bytes_value : ℕ → Text → ℕ
bytes_value v [] = v
bytes_value v (c ∷ s) = bytes_value (v * 256 + c) s

-- SetBytes
unfoldable pub set_bytes : Text → ℕ
unfolding bytes_value
set_bytes s = bytes_value 0 s

bytes_value-fill_onto :
    (size n : ℕ) (acc : Text)
    → n < 256 ^ size
    → bytes_value 0 (fill_onto size n acc) ≡ bytes_value n acc
unfolding bytes_value fill_onto
bytes_value-fill_onto zero n acc h = ap (λ (v : ℕ). bytes_value v acc) (ground arith)
bytes_value-fill_onto (suc size) n acc h =
    let below : n / 256 < 256 ^ size = omega (arith, pow-suc 256 size) in
    bytes_value-fill_onto size (n / 256) ((n % 256) ∷ acc) below
    ∙ ap (λ (v : ℕ). bytes_value v acc) (omega arith)

pub set_bytes-fill_bytes : (size n : ℕ) → n < 256 ^ size → set_bytes (fill_bytes size n) ≡ n
unfolding set_bytes fill_bytes bytes_value
set_bytes-fill_bytes size n h = bytes_value-fill_onto size n [] h

parse_digits-cons :
    (v d : ℕ) (acc : Text)
    → d < 10
    → parse_digits v ((d + b'0') ∷ acc) ≡ parse_digits (v * 10 + d) acc
unfolding parse_digits
parse_digits-cons v d acc h =
    let low : leb b'0' (d + b'0') ≡ true = ground arith in
    let high : leb (d + b'0') b'9' ≡ true = ground arith in
    rw (low, high) (ap (λ (k : ℕ). parse_digits k acc) (omega arith))

parse_digits-decimal_onto :
    (rounds n : ℕ) (acc : Text)
    → n < rounds
    → parse_digits 0 (decimal_onto rounds n acc) ≡ parse_digits n acc
unfolding decimal_onto
parse_digits-decimal_onto zero n acc h = absurd (omega arith)
parse_digits-decimal_onto (suc rounds) n acc h = elim (Bool-cases (ltb n 10)) [
  | inl one ↦
      rw one (
        parse_digits-cons 0 n acc (ground arith) ∙ ap (λ (k : ℕ). parse_digits k acc) (omega arith))
  | inr more ↦ rw more (
      parse_digits-decimal_onto rounds (n / 10) ((n % 10 + b'0') ∷ acc) (ground arith)
      ∙ parse_digits-cons (n / 10) (n % 10) acc (omega arith)
      ∙ ap (λ (k : ℕ). parse_digits k acc) (omega arith))
]

abbrev pub IsDigits : Text → Type 0
IsDigits s = All (λ c. (b'0' ≤ c) × (c ≤ b'9')) s

IsDigits-decimal_onto :
    (rounds n : ℕ) (acc : Text) → IsDigits acc → IsDigits (decimal_onto rounds n acc)
unfolding decimal_onto
IsDigits-decimal_onto zero n acc h = h
IsDigits-decimal_onto (suc rounds) n acc h = elim (Bool-cases (ltb n 10)) [
  | inl one ↦ rw one ((omega arith, ground arith), h)
  | inr more ↦ rw more (
      IsDigits-decimal_onto rounds (n / 10) ((n % 10 + b'0') ∷ acc) ((omega arith, omega arith), h))
]

pub IsDigits-decimal : (n : ℕ) → IsDigits (decimal n)
unfolding decimal
IsDigits-decimal n = IsDigits-decimal_onto (suc n) n [] tt

length-decimal_onto :
    (rounds n : ℕ) (acc : Text) → n < rounds → length acc < length (decimal_onto rounds n acc)
unfolding decimal_onto
length-decimal_onto zero n acc h = absurd (omega arith)
length-decimal_onto (suc rounds) n acc h = elim (Bool-cases (ltb n 10)) [
  | inl one ↦ rw one (omega arith)
  | inr more ↦
      let below : n / 10 < rounds = ground arith in
      rw more (omega (arith, length-decimal_onto rounds (n / 10) ((n % 10 + b'0') ∷ acc) below))
]

parse_digits-decimal : (n : ℕ) → parse_digits 0 (decimal n) ≡ some n
unfolding decimal parse_digits
parse_digits-decimal n = parse_digits-decimal_onto (suc n) n [] (omega arith)

decimal_pos : (n : ℕ) → 0 < length (decimal n)
unfolding decimal
decimal_pos n = length-decimal_onto (suc n) n [] (omega arith)

IsFree-IsDigits : (sep : ℕ) (s : Text) → (sep < b'-') ⊎ (b'9' < sep) → IsDigits s → IsFree sep s
IsFree-IsDigits sep [] h d = tt
IsFree-IsDigits sep (c ∷ s) h (d, ds) = (λ e. ground arith, IsFree-IsDigits sep s h ds)

parse_nat-IsDigits : (s : Text) → 0 < length s → parse_nat s ≡ parse_digits 0 s
parse_nat-IsDigits [] h = absurd (omega arith)
parse_nat-IsDigits (c ∷ s) h = refl

parse_int-IsDigits :
    (s : Text) → IsDigits s → 0 < length s → parse_int s ≡ in_range (parse_digits 0 s)
unfolding parse_int
parse_int-IsDigits [] d h = absurd (omega arith)
parse_int-IsDigits (c ∷ s) (d, ds) h =
    let minus : (c == b'-') ≡ false = ground arith in
    let plus : (c == b'+') ≡ false = ground arith in rw (minus, plus) refl

-- FormatInt is read back by ParseInt, in the whole range of int64.
pub parse_int-format_int :
    (n : ℤ)
    → pos_part n ≤ max_int64
    → neg_part n ≤ max_int64 + 1
    → parse_int (format_int n) ≡ some n
unfolding format_int
parse_int-format_int (pos n) h k =
    parse_int-IsDigits (decimal n) (IsDigits-decimal n) (decimal_pos n)
    ∙ rw (parse_digits-decimal n) (ground arith)
parse_int-format_int (negsuc n) h k =
    unfold parse_int in
    rw (parse_nat-IsDigits (decimal (suc n)) (decimal_pos (suc n)), parse_digits-decimal (suc n))
      (ground arith)

-- Neither digits nor the sign is a separator of the formats that hold a number.
pub IsFree-format_int : (sep : ℕ) (n : ℤ) → (sep < b'-') ⊎ (b'9' < sep) → IsFree sep (format_int n)
unfolding format_int
IsFree-format_int sep (pos n) h = IsFree-IsDigits sep (decimal n) h (IsDigits-decimal n)
IsFree-format_int sep (negsuc n) h =
    (λ e. ground arith, IsFree-IsDigits sep (decimal (suc n)) h (IsDigits-decimal (suc n)))

length-fill_onto : (size n : ℕ) (acc : Text) → length (fill_onto size n acc) ≡ size + length acc
unfolding fill_onto
length-fill_onto zero n acc = omega arith
length-fill_onto (suc size) n acc = omega (arith, length-fill_onto size (n / 256) ((n % 256) ∷ acc))

pub length-fill_bytes : (size n : ℕ) → length (fill_bytes size n) ≡ size
unfolding fill_bytes
length-fill_bytes size n = omega (arith, length-fill_onto size n [])
