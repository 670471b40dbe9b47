-- ===== src/Prelude/Strings/Laws.antt =====
-- How trimming, splitting and cutting act on texts that were put together.
use Prim.Native.Nat.{ℕ}
use mathlib.Core.Path.{◌≡◌, refl, ap}
use mathlib.Core.Bool.{false}
use mathlib.Core.List.{[], ◌∷◌, ◌++◌}
use mathlib.Core.Option.{some}
use native.Mathlib.Omega.{arith}
use muthur_collector.Prelude.Bytes.{Text}
use muthur_collector.Prelude.Equality.{nat_eq}
use muthur_collector.Prelude.Separators.{IsFree}
use muthur_collector.Prelude.Strings.{
  is_space, trim_left, drop_space_end, trim_right, trim_space, push_piece, split, push_rest,
  cut_last,
}

drop_space_end-append : (c d : ℕ) (s : Text) → drop_space_end c (s ++ d ∷ []) ≡ c ∷ (s ++ d ∷ [])
unfolding drop_space_end
drop_space_end-append c d [] = refl
drop_space_end-append c d (e ∷ s) = refl

trim_right-append : (s : Text) (d : ℕ) → is_space d ≡ false → trim_right (s ++ d ∷ []) ≡ s ++ d ∷ []
unfolding trim_right drop_space_end
trim_right-append [] d h = rw h refl
trim_right-append (c ∷ s) d h = rw (trim_right-append s d h) (drop_space_end-append c d s)

-- A text that neither begins nor ends with a space is left alone.
pub trim_space-solid :
    (c : ℕ) (s : Text) (d : ℕ)
    → is_space c ≡ false
    → is_space d ≡ false
    → trim_space (c ∷ (s ++ d ∷ [])) ≡ c ∷ (s ++ d ∷ [])
unfolding trim_space trim_left
trim_space-solid c s d h k = rw h (trim_right-append (c ∷ s) d k)

pub split-free : (sep : ℕ) (s : Text) → IsFree sep s → split sep s ≡ s ∷ []
unfolding split push_piece
split-free sep [] h = refl
split-free sep (c ∷ s) h = ground (arith, split-free sep s h.1, h.0)

-- The first piece ends at the first separator.
pub split-append :
    (sep : ℕ) (s t : Text) → IsFree sep s → split sep (s ++ sep ∷ t) ≡ s ∷ split sep t
unfolding split push_piece
split-append sep [] t h = ground arith
split-append sep (c ∷ s) t h = ground (arith, split-append sep s t h.1, h.0)

pub cut_last-append : (d : ℕ) (s : Text) → cut_last d (s ++ d ∷ []) ≡ some s
unfolding cut_last push_rest
cut_last-append d [] = ground arith
cut_last-append d (c ∷ []) = ground (arith, cut_last-append d [])
cut_last-append d (c ∷ e ∷ s) = ground (arith, cut_last-append d (e ∷ s))

-- The text is not empty, and its last byte is `d`.
abbrev pub Ends : ℕ → Text → Type 0
Ends d s = (i : Text) × (s ≡ i ++ d ∷ [])

pub Ends-append : (d : ℕ) (s t : Text) → Ends d t → Ends d (s ++ t)
Ends-append d [] t e = e
Ends-append d (c ∷ s) t e =
    let (i, same) = Ends-append d s t e in (c ∷ i, ap (λ (r : Text). c ∷ r) same)

pub trim_space-Ends :
    (c : ℕ) (s : Text) (d : ℕ)
    → is_space c ≡ false
    → is_space d ≡ false
    → Ends d s
    → trim_space (c ∷ s) ≡ c ∷ s
trim_space-Ends c s d h k (i, same) = rw same (trim_space-solid c i d h k)
