-- ===== src/Prelude/Separators.antt =====
-- Texts that are joined by a byte which does not stand in the first.
use mathlib.Core.List.{[], ◌∷◌, ◌++◌}
use mathlib.Core.Path.{◌≡◌, refl}
use mathlib.Core.Logic.{◌≢◌}
use Prim.Native.Nat.{ℕ}
use muthur_collector.Prelude.Bytes.{Text}
use muthur_collector.Prelude.All.{All}

abbrev pub IsFree : ℕ → Text → Type 0
IsFree sep s = All (λ c. c ≢ sep) s

pub IsFree-append : (sep : ℕ) (s t : Text) → IsFree sep s → IsFree sep t → IsFree sep (s ++ t)
IsFree-append sep [] t h k = k
IsFree-append sep (c ∷ s) t h k = (h.0, IsFree-append sep s t h.1 k)

-- The first separator of a joined text is the one that was put there.
pub split_first :
    (sep : ℕ) (s t a b : Text)
    → IsFree sep s
    → IsFree sep t
    → s ++ sep ∷ a ≡ t ++ sep ∷ b
    → (s ≡ t) × (a ≡ b)
split_first sep [] [] a b h k e = (refl, cc e)
split_first sep [] (d ∷ t) a b h k e = absurd (k.0 (cc e))
split_first sep (c ∷ s) [] a b h k e = absurd (h.0 (cc e))
split_first sep (c ∷ s) (d ∷ t) a b h k e =
    let heads : c ≡ d = cc e in
    let tails : s ++ sep ∷ a ≡ t ++ sep ∷ b = cc e in
    let (same, rest) = split_first sep s t a b h.1 k.1 tails in (cc (heads, same), rest)

-- A text that goes before another one in the same way as it does elsewhere.
pub append_cancel : (s a b : Text) → s ++ a ≡ s ++ b → a ≡ b
append_cancel [] a b e = e
append_cancel (c ∷ s) a b e = append_cancel s a b (cc e)
