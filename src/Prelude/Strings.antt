-- ===== src/Prelude/Strings.antt =====
-- The functions of package strings that the program calls, on ASCII text.
pub mod Laws
use Prim.Native.Nat.{ℕ, ◌+◌, ◌-◌}
use mathlib.Core.Path.{◌≡◌, refl}
use mathlib.Core.Bool.{Bool, true, false, ◌||◌, ◌&&◌}
use mathlib.Core.List.{List, [], ◌∷◌, ◌++◌, map}
use mathlib.Core.Option.{Option, none, some}
use muthur_collector.Prelude.Bytes.{Text, text}
use muthur_collector.Prelude.Tests.{leb, if◌then◌else◌}
use muthur_collector.Prelude.Equality.{◌==◌, nat_eq}

unfoldable pub is_space : ℕ → Bool
is_space c = c == b' ' || c == b'\t' || c == b'\n' || c == 11 || c == 12 || c == b'\r'

trim_left : Text → Text
unfolding is_space
trim_left [] = []
trim_left (c ∷ s) = let rest = trim_left s in if is_space c then rest else c ∷ s

drop_space_end : ℕ → Text → Text
unfolding is_space
drop_space_end c [] = if is_space c then [] else c ∷ []
drop_space_end c (d ∷ s) = c ∷ d ∷ s

trim_right : Text → Text
unfolding drop_space_end
trim_right [] = []
trim_right (c ∷ s) = drop_space_end c (trim_right s)

-- TrimSpace
unfoldable pub trim_space : Text → Text
unfolding trim_left trim_right
trim_space s = trim_right (trim_left s)

push_piece : ℕ → List Text → List Text
push_piece c [] = (c ∷ []) ∷ []
push_piece c (piece ∷ pieces) = (c ∷ piece) ∷ pieces

-- Split, at a separator of one byte: at least one piece, the pieces between the separators.
unfoldable pub split : ℕ → Text → List Text
unfolding push_piece
split sep [] = [] ∷ []
split sep (c ∷ s) = let rest = split sep s in if c == sep then [] ∷ rest else push_piece c rest

abbrev push_first : ℕ → Option (Text × Text) → Option (Text × Text)
push_first c none = none
push_first c (some (before, after)) = some (c ∷ before, after)

-- Cut, at a separator of one byte.
unfoldable pub cut : ℕ → Text → Option (Text × Text)
cut sep [] = none
cut sep (c ∷ s) = let rest = push_first c (cut sep s) in if c == sep then some ([], s) else rest

-- CutPrefix
unfoldable pub cut_prefix : Text → Text → Option Text
cut_prefix [] s = some s
cut_prefix (c ∷ prefix) [] = none
cut_prefix (c ∷ prefix) (d ∷ s) = let rest = cut_prefix prefix s in if c == d then rest else none

push_rest : ℕ → Option Text → Option Text
push_rest c none = none
push_rest c (some s) = some (c ∷ s)

-- CutSuffix, for a suffix of one byte.
unfoldable pub cut_last : ℕ → Text → Option Text
unfolding push_rest
cut_last d [] = none
cut_last d (c ∷ []) = if c == d then some [] else none
cut_last d (c ∷ e ∷ s) = push_rest c (cut_last d (e ∷ s))

upper_byte : ℕ → ℕ
upper_byte c = if leb b'a' c && leb c b'z' then c - 32 else c

lower_byte : ℕ → ℕ
lower_byte c = if leb b'A' c && leb c b'Z' then c + 32 else c

unfoldable pub to_upper : Text → Text
unfolding upper_byte
to_upper s = map upper_byte s

unfoldable pub to_lower : Text → Text
unfolding lower_byte
to_lower s = map lower_byte s

strings_test : split b';' (trim_space (text " a;b ")) ≡ text "a" ∷ text "b" ∷ []
unfolding split trim_space
strings_test = refl
