-- ===== src/Main/Serve/Alerts/Complete.antt =====
-- Which alerts of a request a server handles, and which it drops.
use muthur_collector.Prelude.{◌+◌, ◌-◌, ◌≡◌, List, [], ◌∷◌, length, Text, bytes_eq}
use muthur_collector.Prelude.Result.{Result}
use muthur_collector.Metrics.{Counters}
use muthur_collector.Config.{Config}
use muthur_collector.Auth.Transport.{Suite, Credential}
use muthur_collector.Auth.SignedClient.Endpoints.{Codec}
use muthur_collector.Forwarder.{World, forward}
use muthur_collector.Forwarder.Signed.{SignedWorld, SignedState, signed_world}
use muthur_collector.Pipeline.{Pipeline}
use muthur_collector.Pipeline.Payload.{IsIdentified}
use muthur_collector.Webhook.{Alert, Gate, Request, serve_http}
use muthur_collector.Main.Serve.Alerts.{Handled}

module _ {Pub Priv Sender Recipient Block Aead Key SigPub Cert : Type 0}
    (suite : Suite Pub Priv Sender Recipient Block Aead Key SigPub Cert) (codec : Codec)
    (pipeline : World (Credential Key) → Pipeline (Credential Key)) where
  -- What became of a worker's alert: its payload names the alert, and its run is that of the forwarder
  -- on this payload, in the world of this worker.
  pub record IsHandled (worker : Alert × SignedWorld Key) (h : Handled) : Type 0 where
    pub state : SignedState Pub Key
    pub counters : Counters
    pub identified :
        IsIdentified (pipeline (signed_world suite codec worker.1 state)) worker.0 h.payload
    pub forwarded : h.run ≡ forward (signed_world suite codec worker.1 state) h.payload counters

  -- One outcome for each worker, in their order.
  abbrev pub AllHandled : List (Alert × SignedWorld Key) → List Handled → Type 0
  AllHandled [] [] = Unit
  AllHandled [] (h ∷ hs) = ⊥
  AllHandled (w ∷ ws) [] = ⊥
  AllHandled (w ∷ ws) (h ∷ hs) = IsHandled w h × AllHandled ws hs

-- The request is taken; the alerts above the capacity are dropped, and the others are running.
abbrev IsCounted : (Text → Result Text (List Alert)) → Request → List Alert → Gate → Type 0
IsCounted decode request alerts g =
    let (response, gate) = serve_http decode request g in
    (response.status ≡ 200)
    × (length gate.dropped ≡ length alerts - g.capacity)
    × (length gate.running + length gate.dropped ≡ length alerts)
