-- ===== src/Prelude/Hex.antt =====
-- encoding/hex, in lower case.
use mathlib.Core.List.{[], ◌∷◌}
use mathlib.Core.Path.{◌≡◌, refl}
use Prim.Native.Nat.{ℕ, ◌+◌, ◌/◌, ◌%◌}
use muthur_collector.Prelude.Bytes.{Text, text}
use muthur_collector.Prelude.Tests.{ltb, if◌then◌else◌}

unfoldable pub hex_digit : ℕ → ℕ
hex_digit n = if ltb n 10 then n + b'0' else n + 87

unfoldable pub hex : Text → Text
unfolding hex_digit
hex [] = []
hex (c ∷ s) = hex_digit (c / 16) ∷ hex_digit (c % 16) ∷ hex s

hex_test : hex (0 ∷ 171 ∷ []) ≡ text "00ab"
unfolding hex
hex_test = refl
