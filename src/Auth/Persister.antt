-- ===== src/Auth/Persister.antt =====
-- The interface Persister of internal/auth/flows.go, and what the flows rely on. `S` is what is
-- stored.
use muthur_collector.Prelude.{
  Bool, ◌&&◌, ◌≡◌, Option, none, some, Text, length, ltb, if◌then◌else◌, true, false,
}
use muthur_collector.Prelude.Result.{Result, ok}
use muthur_collector.Errors.{Error}

pub record Material : Type 0 where
  pub cert : Text
  pub key : Text
  pub ca : Text

-- Write returns an error or `none`, and what is stored then.
pub record Persister (S : Type 0) : Type 0 where
  pub exists : S → Result Error Bool
  pub read : S → Result Error Material
  pub write : Material → S → Option Error × S

-- Whether there is a certificate and a key.
abbrev pub is_pair : Material → Bool
is_pair m = ltb 0 (length m.cert) && ltb 0 (length m.key)

abbrev pub is_provisioned : Option Material → Bool
is_provisioned none = false
is_provisioned (some m) = is_pair m

-- The CA that was stored is kept where none is given.
abbrev pub with_kept_ca : Material → Option Material → Material
with_kept_ca m none = m
with_kept_ca m (some old) = if ltb 0 (length m.ca) then m else record m { ca = old.ca }

pub record IsPersister {S : Type 0} (p : Persister S) (contents : S → Option Material)
    : Type 0 where
  pub exists_sound : (s : S) (b : Bool) → p.exists s ≡ ok b → b ≡ is_provisioned (contents s)
  pub read_sound : (s : S) (m : Material) → p.read s ≡ ok m → contents s ≡ some m
  pub write_fails : (m : Material) (s s' : S) (e : Error) → p.write m s ≡ (some e, s') → s' ≡ s
  pub write_stores :
      (m : Material) (s s' : S)
      → p.write m s ≡ (none, s')
      → (is_pair m ≡ true) × (contents s' ≡ some (with_kept_ca m (contents s)))
