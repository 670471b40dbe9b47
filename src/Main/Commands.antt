-- ===== src/Main/Commands.antt =====
-- cmd/collector/main.go: runBootstrap and runRenew from the environment on, with the store that
-- newPersister picks. What the commands find outside is the record `Host`.
pub mod Again
pub mod Started
use muthur_collector.Prelude.{Option, some, [], Text, text}
use muthur_collector.Prelude.Result.{Result, ok, err, ◌>>=◌}
use muthur_collector.Errors.{Error, as_error}
use muthur_collector.Config.{Config, load}
use muthur_collector.Config
use muthur_collector.Auth.Crypto.{context}
use muthur_collector.Auth.KeyPair.{Files, Write}
use muthur_collector.Auth.FilePersister.{file_persister}
use muthur_collector.Auth.Persister.{Persister}
use muthur_collector.Auth.SecretStore.{Secret, Faults, secret_persister}
use muthur_collector.Auth.Flows.{Outside, FlowRun}
use muthur_collector.Main.{Store, in_secret, in_files, new_persister, main_bootstrap, main_renew}
use muthur_collector.Main.Serve.{Zap, new_logger}

pub record Host (Cred : Type 0) : Type 0 where
  pub environment : Config.Outside
  pub zap : Zap
  -- the error of client-go, if any
  pub client_error : Option Error
  pub outside : Outside Cred
  -- what the API server refuses, and what befalls the calls on the files
  pub faults : Faults
  pub mkdir : Option Text
  pub cert_write : Write
  pub key_write : Write
  pub ca_write : Write

-- The Secret, and the files; a command uses one of the two.
pub record Stored : Type 0 where
  pub secret : Option Secret
  pub files : Files

abbrev keep_secret : {Cred : Type 0} → Stored → FlowRun Cred (Option Secret) → FlowRun Cred Stored
keep_secret s r = record {
  error = r.error;
  stored = record s { secret = r.stored };
  calls = r.calls;
}

abbrev keep_files : {Cred : Type 0} → Stored → FlowRun Cred Files → FlowRun Cred Stored
keep_files s r = record { error = r.error; stored = record s { files = r.stored }; calls = r.calls }

module _ {Cred : Type 0} (host : Host Cred) where
  -- The first lines of both commands.
  unfoldable pub open_store : Result Error (Config × Store)
  unfolding load new_logger new_persister
  open_store = do
    cfg ← context (text "load config") (as_error (load host.environment))
    logger ← context (text "init logger") (new_logger host.zap cfg.log_level)
    store ← new_persister host.client_error cfg
    ok (cfg, store)

  abbrev run_over :
      ((S : Type 0) → Config → Persister S → S → FlowRun Cred S)
      → Stored
      → Result Error (Config × Store)
      → FlowRun Cred Stored
  run_over flow s (err e) = record { error = some e; stored = s; calls = [] }
  run_over flow s (ok (cfg, in_secret store)) =
      keep_secret s (flow (Option Secret) cfg (secret_persister store host.faults) s.secret)
  run_over flow s (ok (cfg, in_files material)) = keep_files s (
      flow Files cfg
        (file_persister material host.mkdir host.cert_write host.key_write host.ca_write) s.files)

  unfoldable pub bootstrap_command : Stored → FlowRun Cred Stored
  unfolding open_store main_bootstrap
  bootstrap_command s = run_over (λ S cfg p. main_bootstrap host.outside cfg p) s open_store

  unfoldable pub renew_command : Stored → FlowRun Cred Stored
  unfolding open_store main_renew
  renew_command s = run_over (λ S cfg p. main_renew host.outside cfg p) s open_store
