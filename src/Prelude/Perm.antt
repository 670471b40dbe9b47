-- ===== src/Prelude/Perm.antt =====
-- Lists with the same elements in another order.
use mathlib.Core.Path.{◌≡◌, refl, ap, ◌∙◌, subst, sym}
use mathlib.Core.List.{List, Permᴰ}
use Prim.Native.Nat.{suc}
use muthur_collector.Prelude.Lists.{length}
use muthur_collector.Prelude.All.{All}

pub length-Permᴰ : {A : Type 0} {xs ys : List A} → Permᴰ xs ys → length xs ≡ length ys
length-Permᴰ Permᴰ.nil = refl
length-Permᴰ (Permᴰ.cons e p) = ap suc (length-Permᴰ p)
length-Permᴰ (Permᴰ.swap e f) = refl
length-Permᴰ (Permᴰ.trans p q) = length-Permᴰ p ∙ length-Permᴰ q

-- What all elements have, they have in any order.
pub All-Permᴰ : {A : Type 0} (P : A → Type 0) {xs ys : List A} → Permᴰ xs ys → All P ys → All P xs
All-Permᴰ P Permᴰ.nil h = tt
All-Permᴰ P (Permᴰ.cons e p) h = (subst P (sym e) h.0, All-Permᴰ P p h.1)
All-Permᴰ P (Permᴰ.swap e f) h = (subst P (sym e) h.1.0, (subst P (sym f) h.0, h.1.1))
All-Permᴰ P (Permᴰ.trans p q) h = All-Permᴰ P p (All-Permᴰ P q h)
