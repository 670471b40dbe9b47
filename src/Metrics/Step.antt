-- ===== src/Metrics/Step.antt =====
-- Chains of code that may panic, for internal/pipeline/pipeline.go.
use muthur_collector.Prelude.{Option, none, some}
use muthur_collector.Metrics.{Counters, Counted}

-- Code that may panic (`none`) and that moves the counters. What a panic leaves behind does not
-- matter: it ends the process.
abbrev pub Step : Type 0 → Type 0
Step A = Counters → Option (A × Counters)

infixl 5 ◌>>=◌ ◌>>◌
abbrev pub ◌>>=◌ : {A B : Type 0} → Step A → (A → Step B) → Step B
◌>>=◌ x f m = elim (x m) [ none ↦ none | some (a, m') ↦ f a m' ]

abbrev pub ◌>>◌ : {A B : Type 0} → Step A → Step B → Step B
x >> y = x >>= λ _. y

abbrev pub returns : {A : Type 0} → A → Step A
returns a m = some (a, m)

abbrev pub counted : {A : Type 0} → Counted A → Step A
counted x m = some (x m)
