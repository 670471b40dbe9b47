-- ===== src/Main.antt =====
-- cmd/collector/main.go: the choice of the mode and of the store, and the two one-shot commands.
-- What a logger prints and the HTTP routes are left out.
pub mod Restart
pub mod Serve
pub mod Commands
use muthur_collector.Prelude.{
  Bool, ◌&&◌, not, Option, none, some, List, [], ◌∷◌, ◌++◌, Text, text, ◌==◌, bytes_eq,
  if◌then◌else◌,
}
use muthur_collector.Prelude.Quote.{quote}
use muthur_collector.Prelude.Result.{Result, ok, err}
use muthur_collector.Errors.{Error, other}
use muthur_collector.Config.{Config}
use muthur_collector.Auth.KeyPair.{CertMaterial, new_material}
use muthur_collector.Auth.Persister.{Persister}
use muthur_collector.Auth.SecretStore.{SecretStore, new_secret_store}
use muthur_collector.Auth.Flows.{
  Outside, FlowRun, BootstrapFlow, RenewFlow, run_bootstrap, run_renew,
}

pub data Mode : Type 0 where
  serve bootstrap renew : Mode

-- The argument os.Args[1], if it is there and not empty; then the variable MODE.
abbrev from_env : Text → Text
from_env [] = text "serve"
from_env (c ∷ v) = c ∷ v

abbrev mode_name : List Text → Text → Text
mode_name [] env = from_env env
mode_name (program ∷ []) env = from_env env
mode_name (program ∷ [] ∷ args) env = from_env env
mode_name (program ∷ (c ∷ mode) ∷ args) env = c ∷ mode

unfoldable pub dispatch : List Text → Text → Result Error Mode
unfolding quote
dispatch args env =
    let mode = mode_name args env in
    if mode == text "serve"
    then ok serve
    else if mode == text "bootstrap"
    then ok bootstrap
    else if mode == text "renew"
    then ok renew
    else err (other (text "unknown mode " ++ (quote mode ++ text " (want serve|bootstrap|renew)")))

-- Where the certificate is kept.
pub data Store : Type 0 where
  in_secret : SecretStore → Store
  in_files : CertMaterial → Store

abbrev as_store : Result Error SecretStore → Result Error Store
as_store (err e) = err e
as_store (ok store) = ok (in_secret store)

-- `client` is the error of the clients of client-go, if any.
unfoldable pub new_persister : Option Error → Config → Result Error Store
unfolding new_secret_store
new_persister client cfg =
    if not (cfg.namespace == []) && not (cfg.cert_secret_name == [])
    then as_store (new_secret_store client cfg.namespace cfg.cert_secret_name)
    else ok (in_files (new_material cfg.cert_dir))

module _ {Cred S : Type 0} (outside : Outside Cred) (cfg : Config) (p : Persister S) where
  unfoldable pub bootstrap_flow : BootstrapFlow S
  bootstrap_flow = record {
    cluster_id = cfg.cluster_id;
    tenant_id = cfg.tenant_id;
    brain_url = cfg.central_agent_url;
    transport = cfg.auth_mode;
    edge_ca_file = cfg.signed_edge_ca_file;
    bootstrap_token_file = cfg.bootstrap_token_file;
    vendor_ca_file = cfg.vendor_ca_file;
    persister = some p;
  }

  unfoldable pub renew_flow : RenewFlow S
  renew_flow = record {
    cluster_id = cfg.cluster_id;
    tenant_id = cfg.tenant_id;
    brain_url = cfg.central_agent_url;
    transport = cfg.auth_mode;
    edge_ca_file = cfg.signed_edge_ca_file;
    vendor_ca_file = cfg.vendor_ca_file;
    persister = some p;
    renew_before = cfg.renew_before;
  }

  -- runBootstrap and runRenew with a store.
  unfoldable pub main_bootstrap : S → FlowRun Cred S
  unfolding bootstrap_flow run_bootstrap
  main_bootstrap s = run_bootstrap outside bootstrap_flow s

  unfoldable pub main_renew : S → FlowRun Cred S
  unfolding renew_flow run_renew
  main_renew s = run_renew outside renew_flow s
