-- ===== src/Examples/Sorting.antt =====
-- Insertion sort, as one function that does what sort.Slice documents.
use mathlib.Core.List.{Permᴰ}
use mathlib.Core.List.Permᴰ.{nil, cons, swap, trans}
use mathlib.Core.List.Permᴰ
use muthur_collector.Prelude.{
  ◌≡◌, refl, Bool, true, false, inl, inr, List, [], ◌∷◌, arith, Bool-cases, if◌then◌else◌,
}
use muthur_collector.Prelude.All.{All}
use muthur_collector.Proto.{KubernetesEvent}
use muthur_collector.K8s.Events.{SortSlice, newer}
use muthur_collector.K8s.Events.Newest.{Ordered, IsSortSlice}

insert :
    (KubernetesEvent → KubernetesEvent → Bool)
    → KubernetesEvent
    → List KubernetesEvent
    → List KubernetesEvent
insert less x [] = x ∷ []
insert less x (y ∷ ys) = let rest = insert less x ys in if less y x then y ∷ rest else x ∷ y ∷ ys

unfoldable pub insertion_sort : SortSlice
unfolding insert
insertion_sort less [] = []
insertion_sort less (x ∷ xs) = insert less x (insertion_sort less xs)

module _ (P : KubernetesEvent → Type 0) (x : KubernetesEvent) (h : P x) where
  All-insert : (ys : List KubernetesEvent) → All P ys → All P (insert newer x ys)
  unfolding insert
  All-insert [] k = (h, tt)
  All-insert (y ∷ ys) k = elim (Bool-cases (newer y x)) [
    | inl e ↦ rw e (k.0, All-insert ys k.1)
    | inr e ↦ rw e (h, k)
  ]

newer_asym : (x y : KubernetesEvent) → newer y x ≡ true → newer x y ≡ false
newer_asym x y h = ground arith

newer_trans : (x y z : KubernetesEvent) → newer y x ≡ false → newer z y ≡ false → newer z x ≡ false
newer_trans x y z h k = ground arith

All-newer_trans :
    (x y : KubernetesEvent) (zs : List KubernetesEvent)
    → newer y x ≡ false
    → All (λ z. newer z y ≡ false) zs
    → All (λ z. newer z x ≡ false) zs
All-newer_trans x y [] h k = tt
All-newer_trans x y (z ∷ zs) h k = (newer_trans x y z h k.0, All-newer_trans x y zs h k.1)

Ordered-insert :
    (x : KubernetesEvent) (ys : List KubernetesEvent)
    → Ordered newer ys
    → Ordered newer (insert newer x ys)
unfolding insert
Ordered-insert x [] h = (tt, tt)
Ordered-insert x (y ∷ ys) h = elim (Bool-cases (newer y x)) [
  | inl e ↦
      rw e
        (All-insert (λ z. newer z y ≡ false) x (newer_asym x y e) ys h.0, Ordered-insert x ys h.1)
  | inr e ↦ rw e ((e, All-newer_trans x y ys e h.0), h)
]

perm-insert : (x : KubernetesEvent) (ys : List KubernetesEvent) → Permᴰ (insert newer x ys) (x ∷ ys)
unfolding insert
perm-insert x [] = Permᴰ.refl (x ∷ [])
perm-insert x (y ∷ ys) = elim (Bool-cases (newer y x)) [
  | inl e ↦ rw e (trans (cons refl (perm-insert x ys)) (swap refl refl))
  | inr e ↦ rw e (Permᴰ.refl (x ∷ y ∷ ys))
]

perm-insertion_sort : (l : List KubernetesEvent) → Permᴰ (insertion_sort newer l) l
unfolding insertion_sort
perm-insertion_sort [] = nil
perm-insertion_sort (x ∷ xs) =
    trans (perm-insert x (insertion_sort newer xs)) (cons refl (perm-insertion_sort xs))

Ordered-insertion_sort : (l : List KubernetesEvent) → Ordered newer (insertion_sort newer l)
unfolding insertion_sort
Ordered-insertion_sort [] = tt
Ordered-insertion_sort (x ∷ xs) =
    Ordered-insert x (insertion_sort newer xs) (Ordered-insertion_sort xs)

pub insertion_sort-IsSortSlice : IsSortSlice insertion_sort
insertion_sort-IsSortSlice = record { perm = perm-insertion_sort; ordered = Ordered-insertion_sort }
