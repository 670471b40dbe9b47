-- ===== src/Prelude/Equality.antt =====
-- Equality tests of the source: one operator for numbers and strings.
use mathlib.Core.Path.{◌≡◌}
use mathlib.Core.Logic.{◌↔◌}
use mathlib.Core.Bool.{Bool, true}
use Prim.Native.Nat.{ℕ}
use muthur_collector.Prelude.Tests.{nat_beq, nat_beq_iff}
use muthur_collector.Prelude.Bytes.{Text, text_eq, text_eq_iff}

-- A test, and that it decides equality.
pub record Eq {κ} (T : Type κ) : Type κ where
  pub test : T → T → Bool
  pub decides : (x y : T) → (test x y ≡ true) ↔ (x ≡ y)

infix 50 ◌==◌
abbrev pub ◌==◌ {κ} : {T : Type κ} ⦃tests : Eq T⦄ → T → T → Bool
◌==◌ ⦃tests⦄ x y = tests.test x y

instance abbrev pub bytes_eq : Eq Text
bytes_eq = record { test = text_eq; decides = text_eq_iff }

instance abbrev pub nat_eq : Eq ℕ
nat_eq = record { test = nat_beq; decides = nat_beq_iff }
