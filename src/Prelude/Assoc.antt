-- ===== src/Prelude/Assoc.antt =====
-- Go maps with string keys, as association lists: the order of the list is the order in which a
-- `range` over the map happens to meet the entries, so what holds for every list holds for every order.
use mathlib.Core.Option.{Option, none, some}
use mathlib.Core.List.{List, [], ◌∷◌}
use muthur_collector.Prelude.Tests.{if◌then◌else◌}
use muthur_collector.Prelude.Bytes.{Text}
use muthur_collector.Prelude.Equality.{◌==◌, bytes_eq}

-- `v, ok := m[k]`
unfoldable pub lookup {ℓ} : {V : Type ℓ} → Text → List (Text × V) → Option V
lookup k [] = none
lookup k ((j, v) ∷ m) = if j == k then some v else lookup k m

-- `m[k]` in a map of strings: the empty string where the key is missing.
unfoldable pub get : List (Text × Text) → Text → Text
unfolding lookup
get m k = elim (lookup k m) [ none ↦ [] | some v ↦ v ]
