-- ===== src/Pipeline/Egress.antt =====
-- What leaves the cluster while one alert is processed over the signed transport.
use mathlib.Core.Path.{subst}
use muthur_collector.Prelude.{◌≤◌, ◌≡◌, Option, none, some, arith, length}
use muthur_collector.Prelude.All.{All}
use muthur_collector.Metrics.{Counters}
use muthur_collector.Proto.{AlertPayload}
use muthur_collector.Webhook.{Alert}
use muthur_collector.Auth.Transport.{Suite, Credential}
use muthur_collector.Auth.VendorKeys.Vouched.{IsVouched}
use muthur_collector.Auth.SignedClient.Endpoints.{Codec}
use muthur_collector.Forwarder.{World, Run, forward}
use muthur_collector.Forwarder.Retry.{forward-bounds}
use muthur_collector.Forwarder.Signed.{SignedWorld, SignedState, requests_before, signed_world}
use muthur_collector.Forwarder.Signed.Wire.{IsAlert, requests_before-AllAlert}
use muthur_collector.Pipeline.{
  Pipeline, process_alert, build_payload, forward_built, count_received, status_or_firing,
}
use muthur_collector.Pipeline.Boundary.{IsSanitized, process_alert-IsSanitized}

forward_built-sends :
    {Cert : Type 0} (w : World Cert) (o : Option (AlertPayload × Counters)) (payload : AlertPayload)
    (run : Run)
    → forward_built w o ≡ some (payload, run)
    → run.sends ≤ 3
forward_built-sends w none payload run e = cc
forward_built-sends w (some (built, m)) payload run e =
    let same : forward w built m ≡ run = cc e in
    subst (λ (r : Run). r.sends ≤ 3) same (forward-bounds w built m).1

-- Whatever the alert, the cluster, the monitoring stack and the edge do: where the pipeline forwards over
-- the signed transport, with a client that holds vouched keys, the requests it makes for an alert are at
-- most six; each is one payload, encoded, sealed to a vouched key and signed; and in that payload what
-- is free text was made by the redactor.
pub process_alert-AllAlert :
    {Pub Priv Sender Recipient Block Aead Key SigPub Cert : Type 0}
    (suite : Suite Pub Priv Sender Recipient Block Aead Key SigPub Cert) (codec : Codec)
    (w : SignedWorld Key) (s : SignedState Pub Key) (p : Pipeline (Credential Key)) (alert : Alert)
    (m : Counters) (payload : AlertPayload) (run : Run)
    → p.world ≡ signed_world suite codec w s
    → All (IsVouched suite) s.client.keys
    → process_alert p alert m ≡ some (payload, run)
    → IsSanitized p.redactor payload
      × All (IsAlert suite codec payload) (requests_before suite codec w s payload run.sends)
      × (length (requests_before suite codec w s payload run.sends) ≤ 6)
unfolding process_alert
process_alert-AllAlert suite codec w s p alert m payload run wired v e =
    let (alerts, few) = requests_before-AllAlert suite codec w s payload run.sends v in
    let sends =
      forward_built-sends p.world
        (build_payload p alert (count_received p (status_or_firing alert.status) m)) payload run
        e in
    (process_alert-IsSanitized p alert m payload run e, alerts, omega arith)
