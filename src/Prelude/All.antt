-- ===== src/Prelude/All.antt =====
-- Predicates on every element of a list, and being one of its elements.
use mathlib.Core.Path.{◌≡◌}
use mathlib.Core.Logic.{◌⊎◌}
use mathlib.Core.List.{List, [], ◌∷◌, ◌++◌, map}
use Prim.Native.Nat.{ℕ, zero, suc}
use muthur_collector.Prelude.Lists.{take}

abbrev pub All {ℓ κ} : {A : Type ℓ} → (A → Type κ) → List A → Type κ
All P [] = Unit
All P (x ∷ xs) = P x × All P xs

-- `x` is an element of the list.
abbrev pub Among : {A : Type 0} → A → List A → Type 0
Among x [] = ⊥
Among x (y ∷ ys) = (x ≡ y) ⊎ Among x ys

module _ {ℓ κ} {A : Type ℓ} (P : A → Type κ) where
  pub All-append : (xs ys : List A) → All P xs → All P ys → All P (xs ++ ys)
  All-append [] ys h k = k
  All-append (x ∷ xs) ys h k = (h.0, All-append xs ys h.1 k)

  pub All-take : (n : ℕ) (xs : List A) → All P xs → All P (take n xs)
  All-take zero xs h = tt
  All-take (suc n) [] h = tt
  All-take (suc n) (x ∷ xs) h = (h.0, All-take n xs h.1)

  pub All-of_every : ((x : A) → P x) → (xs : List A) → All P xs
  All-of_every h [] = tt
  All-of_every h (x ∷ xs) = (h x, All-of_every h xs)

module _ {ℓ κ} {A : Type ℓ} {B : Type ℓ} (P : B → Type κ) (f : A → B) where
  -- Whatever the elements, their images satisfy `P`.
  pub All-map : ((a : A) → P (f a)) → (xs : List A) → All P (map f xs)
  All-map h [] = tt
  All-map h (x ∷ xs) = (h x, All-map h xs)
