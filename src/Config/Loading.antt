-- ===== src/Config/Loading.antt =====
-- What Load accepts.
use muthur_collector.Prelude.{
  ◌≡◌, refl, ◌↔◌, true, false, ◌||◌, [], Text, text, ◌==◌, bytes_eq, arith, ap, sym, ◌∙◌, inl, inr,
}
use muthur_collector.Prelude.Int.{ℤ}
use muthur_collector.Prelude.Result.{Result, ok, err, Result-cases}
use muthur_collector.Config.{
  Outside, Config, mode_mtls, mode_signed, env_or, read_config, validate, load,
}

-- A configuration with the two required settings and a mode that exists.
pub record IsUsable (cfg : Config) : Type 0 where
  pub cluster_id : (cfg.cluster_id == []) ≡ false
  pub central_agent_url : (cfg.central_agent_url == []) ≡ false
  pub auth_mode : (cfg.auth_mode == mode_mtls || cfg.auth_mode == mode_signed) ≡ true

validate-IsUsable : (cfg cfg' : Config) → validate cfg ≡ ok cfg' → IsUsable cfg × (cfg' ≡ cfg)
unfolding validate
validate-IsUsable cfg cfg' h = (
  record { cluster_id = ground arith; central_agent_url = ground arith; auth_mode = ground arith },
  ground arith,
)

validate-accepts : (cfg : Config) → IsUsable cfg → validate cfg ≡ ok cfg
unfolding validate
validate-accepts cfg u = rw (u.cluster_id, u.central_agent_url, u.auth_mode) refl

module _ (outside : Outside) where
  -- RENEW_BEFORE, or 48 hours.
  abbrev pub parsed : Result Text ℤ
  parsed = outside.parse_duration (env_or outside (text "RENEW_BEFORE") (text "48h"))

  load-parsed : (d : ℤ) → parsed ≡ ok d → load outside ≡ validate (read_config outside d)
  unfolding load
  load-parsed d h = rw h refl

  load-unparsed : (e : Text) (cfg : Config) → parsed ≡ err e → load outside ≡ ok cfg → ⊥
  unfolding load
  load-unparsed e cfg h = rw h (λ k. ground arith)

-- Load returns a configuration exactly when RENEW_BEFORE parses, both required settings are there and the
-- mode exists; what it returns is then the environment with its defaults, and nothing else.
pub load-IsUsable :
    (outside : Outside) (cfg : Config)
    → (load outside ≡ ok cfg) ↔ (
        (d : ℤ) × (parsed outside ≡ ok d)
        × (cfg ≡ read_config outside d)
        × IsUsable (read_config outside d))
load-IsUsable outside cfg = (
  λ h. elim (Result-cases (parsed outside)) [
    | inr (e, failed) ↦ absurd (load-unparsed outside e cfg failed h)
    | inl (d, e) ↦
        let (usable, same) =
          validate-IsUsable (read_config outside d) cfg (sym (load-parsed outside d e) ∙ h) in
        (d, e, same, usable)
  ],
  λ (d, e, same, usable).
      load-parsed outside d e
      ∙ validate-accepts (read_config outside d) usable
      ∙ ap (λ (c : Config). ok c) (sym same),
)
