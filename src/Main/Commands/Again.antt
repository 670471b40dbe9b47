-- ===== src/Main/Commands/Again.antt =====
-- The bootstrap command, run again.
use muthur_collector.Prelude.{
  ◌≡◌, refl, sym, ap, ◌∙◌, true, not, ◌&&◌, Bool-cases, Option-cases, ◌⊎◌, inl, inr, Option, none,
  some, [], text, ◌==◌, bytes_eq, if◌then◌else◌,
}
use muthur_collector.Prelude.Result.{Result, ok, err, ◌>>=◌, Result-cases, bind-eq-ok}
use muthur_collector.Errors.{Error, as_error, as_error-eq-ok}
use muthur_collector.Config
use muthur_collector.Config.{Config, load}
use muthur_collector.Auth.Crypto.{context, context-eq-ok}
use muthur_collector.Auth.KeyPair.{CertMaterial, Files, new_material}
use muthur_collector.Auth.FilePersister.{file_persister}
use muthur_collector.Auth.FilePersister.Contents.{IsDistinct, IsApart, file_persister-round_trip}
use muthur_collector.Auth.Flows.{FlowRun}
use muthur_collector.Auth.Flows.Success.{IsLeft, run_bootstrap-IsLeft, run_bootstrap-idle}
use muthur_collector.Auth.SecretStore.{Secret, SecretStore, new_secret_store}
use muthur_collector.Main.{
  Store, in_secret, in_files, new_persister, main_bootstrap, bootstrap_flow,
}
use muthur_collector.Main.Restart.{main_bootstrap-idempotent}
use muthur_collector.Main.Serve.{new_logger}
use muthur_collector.Main.Commands.{Host, Stored, open_store, run_over, bootstrap_command}

-- The store of a configuration.
abbrev pub store_of : Config → Store
store_of cfg =
    if not (cfg.namespace == []) && not (cfg.cert_secret_name == [])
    then in_secret (record { namespace = cfg.namespace; secret_name = cfg.cert_secret_name })
    else in_files (new_material cfg.cert_dir)

new_persister-eq-ok :
    (client : Option Error) (cfg : Config) (store : Store)
    → new_persister client cfg ≡ ok store
    → store ≡ store_of cfg
unfolding new_persister new_secret_store
new_persister-eq-ok client cfg store e = elim (Bool-cases (cfg.namespace == [])) [
  | inl a ↦
      let h : ok (in_files (new_material cfg.cert_dir)) ≡ ok store = rw a at e in rw a (sym (cc h))
  | inr a ↦ elim (Bool-cases (cfg.cert_secret_name == [])) [
    | inl b ↦
        let h : ok (in_files (new_material cfg.cert_dir)) ≡ ok store = rw (a, b) at e in
        rw (a, b) (sym (cc h))
    | inr b ↦ elim (Option-cases client) [
      | inr (x, c) ↦ absurd (let h : err x ≡ ok store = rw (a, b, c) at e in cc h)
      | inl c ↦
          let made : SecretStore = record {
            namespace = cfg.namespace;
            secret_name = cfg.cert_secret_name;
          } in
          let h : ok (in_secret made) ≡ ok store = rw (a, b, c) at e in rw (a, b) (sym (cc h))
    ]
  ]
]

module _ {Cred : Type 0} where
  abbrev after_config : Host Cred → Config → Result Error (Config × Store)
  after_config host cfg =
      context (text "init logger") (new_logger host.zap cfg.log_level)
      >>= (λ logger. new_persister host.client_error cfg >>= (λ store. ok (cfg, store)))

  pub open_store-eq-ok :
      (host : Host Cred) (cfg : Config) (store : Store)
      → open_store host ≡ ok (cfg, store)
      → (load host.environment ≡ ok cfg) × (store ≡ store_of cfg)
  unfolding open_store
  open_store-eq-ok host cfg store e =
      let loading = context (text "load config") (as_error (load host.environment)) in
      let (cfg', loaded, e₁) = bind-eq-ok loading (after_config host) e in
      let (logger, _, e₂) =
        bind-eq-ok (context (text "init logger") (new_logger host.zap cfg'.log_level))
          (λ logger. new_persister host.client_error cfg' >>= (λ store. ok (cfg', store))) e₁ in
      let (store', opened, e₃) =
        bind-eq-ok (new_persister host.client_error cfg') (λ store. ok (cfg', store)) e₂ in
      let same : (cfg', store') ≡ (cfg, store) = cc e₃ in
      let same_cfg : cfg' ≡ cfg = ap (λ (x : Config × Store). x.0) same in
      let same_store : store' ≡ store = ap (λ (x : Config × Store). x.1) same in
      let read = as_error-eq-ok _ (context-eq-ok _ (as_error (load host.environment)) loaded) in
      (
        read ∙ ap (λ (c : Config). ok c) same_cfg,
        sym same_store
            ∙ new_persister-eq-ok host.client_error cfg' store' opened
            ∙ ap store_of same_cfg,
      )

  pub open_store-cases :
      (host : Host Cred) (cfg : Config)
      → load host.environment ≡ ok cfg
      → (open_store host ≡ ok (cfg, store_of cfg)) ⊎ ((e : Error) × (open_store host ≡ err e))
  open_store-cases host cfg loaded = elim (Result-cases (open_store host)) [
    | inr failed ↦ inr failed
    | inl ((cfg', store), opened) ↦
        let (loaded', made) = open_store-eq-ok host cfg' store opened in
        let same : cfg' ≡ cfg = cc (loaded, loaded') in
        let rest : ◌≡◌ {A = Config × Store} (cfg', store) (cfg, store_of cfg) =
          ap (λ (x : Store). (cfg', x)) made ∙ ap (λ (c : Config). (c, store_of c)) same in
        inl (cc (opened, rest))
  ]

  -- The temporary files of a command have other names than the three that it keeps.
  abbrev pub HasApart : Host Cred → Store → Type 0
  HasApart host (in_secret store) = Unit
  HasApart host (in_files m) =
      IsDistinct m × IsApart m host.cert_write × IsApart m host.key_write × IsApart m host.ca_write

  abbrev over : Host Cred → Stored → Result Error (Config × Store) → FlowRun Cred Stored
  over host s opened = run_over host (λ S cfg p. main_bootstrap host.outside cfg p) s opened

  module _ (host host' : Host Cred) (cfg : Config) (s : Stored) where
    pub files-provisioned :
        (m : CertMaterial) (fs' : Files)
        → HasApart host (in_files m)
        → let p = file_persister m host.mkdir host.cert_write host.key_write host.ca_write in
          IsLeft host.outside p s.files fs' → p.exists fs' ≡ ok true
    files-provisioned m fs' apart (inl (there, same)) = rw same there
    files-provisioned m fs' (d, a₁, a₂, a₃) (inr (written, e)) =
        (file_persister-round_trip m host.mkdir host.cert_write host.key_write host.ca_write written
          s.files fs' d a₁ a₂ a₃ e).0

    over-again :
        (store : Store)
        → HasApart host store
        → let r = over host s (ok (cfg, store)) in
          let r' = over host' r.stored (ok (cfg, store)) in
          r.error ≡ none → (r'.calls ≡ []) × (r'.stored ≡ r.stored)
    unfolding main_bootstrap bootstrap_flow file_persister
    over-again (in_secret store) apart fine =
        let (calls, kept) =
          main_bootstrap-idempotent host.outside host'.outside cfg store host.faults host'.faults
            s.secret fine in
        (calls, ap (λ (x : Option Secret). record s { secret = x }) kept)
    over-again (in_files m) apart fine =
        let p = file_persister m host.mkdir host.cert_write host.key_write host.ca_write in
        let p' = file_persister m host'.mkdir host'.cert_write host'.key_write host'.ca_write in
        let flow = bootstrap_flow host.outside cfg p in
        let fs' = (main_bootstrap host.outside cfg p s.files).stored in
        let there =
          files-provisioned m fs' apart
            (run_bootstrap-IsLeft host.outside p flow s.files refl fine) in
        let (calls, kept) =
          run_bootstrap-idle host'.outside p' (bootstrap_flow host'.outside cfg p') fs' refl
            there in
        (calls, ap (λ (x : Files). record s { files = x }) kept)

-- After a bootstrap command that succeeded, another one with the same environment, whatever else it
-- meets, asks nothing of the brain and leaves the store as it is: the Secret, or the files, if the
-- temporary files of the first command had other names than those it keeps.
pub bootstrap_command-idempotent :
    {Cred : Type 0} (host host' : Host Cred) (s : Stored) (cfg : Config)
    → host'.environment ≡ host.environment
    → load host.environment ≡ ok cfg
    → HasApart host (store_of cfg)
    → let r = bootstrap_command host s in
      let r' = bootstrap_command host' r.stored in
      r.error ≡ none → (r'.calls ≡ []) × (r'.stored ≡ r.stored)
unfolding bootstrap_command
bootstrap_command-idempotent host host' s cfg same loaded apart fine =
    elim (open_store-cases host cfg loaded) [
      | inr (e, failed) ↦ absurd (let stop : some e ≡ none = rw failed at fine in cc stop)
      | inl opened ↦
          elim (open_store-cases host' cfg (ap (λ (x : Config.Outside). load x) same ∙ loaded)) [
            | inr (e, failed) ↦ rw (opened, failed) (refl, refl)
            | inl opened' ↦
                rw (opened, opened')
                  (over-again host host' cfg s (store_of cfg) apart (rw opened at fine))
          ]
    ]
