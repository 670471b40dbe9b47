-- ===== src/Main/Restart.antt =====
-- A pod that starts again does not spend a second token.
use muthur_collector.Prelude.{◌≡◌, refl, Option, none, []}
use muthur_collector.Config.{Config}
use muthur_collector.Auth.SecretStore.{SecretStore, Secret, Faults, secret_persister}
use muthur_collector.Auth.SecretStore.Contents.{contents, secret_persister-IsPersister}
use muthur_collector.Auth.Flows.{Outside}
use muthur_collector.Auth.Flows.Enrolled.{run_bootstrap-idempotent}
use muthur_collector.Main.{bootstrap_flow, main_bootstrap}

-- After a run of the bootstrap command over a Kubernetes Secret that reported success, another run with
-- the same configuration, whatever it meets outside and whatever the API server refuses, asks nothing
-- of the brain and leaves the Secret as it is.
pub main_bootstrap-idempotent :
    {Cred : Type 0} (outside outside' : Outside Cred) (cfg : Config) (store : SecretStore)
    (faults faults' : Faults) (s : Option Secret)
    → let r = main_bootstrap outside cfg (secret_persister store faults) s in
      let r' = main_bootstrap outside' cfg (secret_persister store faults') r.stored in
      r.error ≡ none → (r'.calls ≡ []) × (r'.stored ≡ r.stored)
unfolding main_bootstrap bootstrap_flow
main_bootstrap-idempotent outside outside' cfg store faults faults' s fine =
    run_bootstrap-idempotent outside outside' (secret_persister store faults)
      (secret_persister store faults') contents
      (bootstrap_flow outside cfg (secret_persister store faults))
      (bootstrap_flow outside' cfg (secret_persister store faults')) s
      (secret_persister-IsPersister store faults) (secret_persister-IsPersister store faults') refl
      refl fine
