-- ===== src/Main/Serve/Alerts.antt =====
-- cmd/collector/main.go with internal/pipeline/pipeline.go: a server over the signed transport while it
-- handles one alert after another. The workers share the reloader and the client of the forwarder; here
-- one worker ends before the next begins.
pub mod Safe
pub mod Complete
use muthur_collector.Prelude.{
  ℕ, ◌+◌, ◌*◌, ◌≤◌, ◌<◌, ◌≡◌, refl, Option, none, some, List, [], ◌∷◌, arith, length, Option-cases,
  inl, inr, ap,
}
use muthur_collector.Prelude.All.{All}
use muthur_collector.Prelude.Int.{negsuc, pos}
use muthur_collector.Prelude.Result.{ok}
use muthur_collector.Metrics.{Counters}
use muthur_collector.Proto.{AlertPayload}
use muthur_collector.Redact.{Redactor}
use muthur_collector.Auth.Reloader.{Reloader}
use muthur_collector.Auth.Transport.{Suite, Client, Credential, Sent}
use muthur_collector.Auth.VendorKeys.Vouched.{IsVouched}
use muthur_collector.Auth.SignedClient.Endpoints.{Codec}
use muthur_collector.Forwarder.{World, Run}
use muthur_collector.Forwarder.Signed.{
  SignedWorld, SignedState, state_after, requests_before, signed_world,
}
use muthur_collector.Forwarder.Signed.Wire.{IsAlert}
use muthur_collector.Pipeline.{Pipeline, process_alert}
use muthur_collector.Pipeline.Boundary.{IsSanitized}
use muthur_collector.Pipeline.Egress.{process_alert-AllAlert}
use muthur_collector.Webhook.{Alert}

-- An alert that was processed: what was forwarded, and the requests it was forwarded with.
pub record Handled : Type 0 where
  pub payload : AlertPayload
  pub run : Run
  pub requests : List Sent

-- A SignedClient before its first call; its time is that of time.Time{}, in nanoseconds.
abbrev pub new_client : {Pub : Type 0} → Client Pub
new_client = record { keys = []; fetched = negsuc 62_135_596_799_999_999_999 }

module _ {Pub Priv Sender Recipient Block Aead Key SigPub Cert : Type 0}
    (suite : Suite Pub Priv Sender Recipient Block Aead Key SigPub Cert) (codec : Codec)
    (pipeline : World (Credential Key) → Pipeline (Credential Key)) where
  -- The workers of these alerts, which the select of the webhook (`offer`) let start, each with what its
  -- sends meet. A panic ends the process, and with it the list.
  unfoldable pub process_all :
      List (Alert × SignedWorld Key) → SignedState Pub Key → Counters → List Handled
  unfolding process_alert signed_world state_after
  process_all [] s m = []
  process_all ((alert, w) ∷ alerts) s m =
      elim (process_alert (pipeline (signed_world suite codec w s)) alert m) [
        | none ↦ []
        | some (payload, run) ↦
            record {
              payload = payload;
              run = run;
              requests = requests_before suite codec w s payload run.sends;
            }
            ∷ process_all alerts (state_after suite codec w s payload run.sends) run.counters
      ]
