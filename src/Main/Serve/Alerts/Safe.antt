-- ===== src/Main/Serve/Alerts/Safe.antt =====
-- What a server that starts lets out of the cluster.
use muthur_collector.Prelude.{◌≤◌, length}
use muthur_collector.Prelude.All.{All}
use muthur_collector.Config.{Config}
use muthur_collector.Redact.{Redactor}
use muthur_collector.Auth.Reloader.{Reloader}
use muthur_collector.Auth.Transport.{Suite}
use muthur_collector.Auth.SignedClient.Endpoints.{Codec}
use muthur_collector.Forwarder.Signed.Wire.{IsAlert}
use muthur_collector.Pipeline.{Pipeline}
use muthur_collector.Pipeline.Boundary.{IsSanitized}
use muthur_collector.Main.Serve.Alerts.{Handled}

module _ {Pub Priv Sender Recipient Block Aead Key SigPub Cert : Type 0}
    (suite : Suite Pub Priv Sender Recipient Block Aead Key SigPub Cert) (codec : Codec) where
  -- The free text of the payload is the redactor's, and every request is the payload, sealed to a vouched
  -- key and signed.
  pub record IsSafe (r : Redactor) (h : Handled) : Type 0 where
    pub sanitized : IsSanitized r h.payload
    pub alerts : All (IsAlert suite codec h.payload) h.requests
    pub few : length h.requests ≤ 6
