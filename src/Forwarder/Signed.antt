-- ===== src/Forwarder/Signed.antt =====
-- internal/forwarder/forwarder.go over internal/auth: the signed transport of a Forwarder, whose sends share
-- one reloader and one signed client. What the attempts of one Forward meet outside is the record
-- `SignedWorld`.
pub mod Wire
pub mod Delivered
use muthur_collector.Prelude.{ℕ, zero, suc, Option, none, some, List, [], ◌∷◌, ◌++◌, Text}
use muthur_collector.Prelude.Result.{Result, ok, err}
use muthur_collector.Errors.{Error, as_error}
use muthur_collector.Proto.{AlertPayload}
use muthur_collector.Auth.Reloader.{Disk, Reloader, get_client_certificate}
use muthur_collector.Auth.Transport.{Suite, Client, Attempt, Credential, Exchange, Sent}
use muthur_collector.Auth.SignedClient.Endpoints.{Codec, ingest}
use muthur_collector.Forwarder.{Code, Transport, signed, World}

-- The answers of the disk, of the two attempts of a call, and of the context, at each send.
pub record SignedWorld (Key : Type 0) : Type 0 where
  pub disk : ℕ → Disk (Credential Key)
  pub first_attempt : ℕ → Attempt
  pub second_attempt : ℕ → Attempt
  pub cancelled : ℕ → Option Error
  pub status_code : Error → Code

-- The reloader and the client of a Forwarder.
pub record SignedState (Pub Key : Type 0) : Type 0 where
  pub reloader : Reloader (Credential Key)
  pub client : Client Pub

abbrev pub error_of : {A : Type 0} → Result Error A → Option Error
error_of (ok a) = none
error_of (err e) = some e

module _ {Pub Priv Sender Recipient Block Aead Key SigPub Cert : Type 0}
    (suite : Suite Pub Priv Sender Recipient Block Aead Key SigPub Cert) (codec : Codec)
    (w : SignedWorld Key) (s : SignedState Pub Key) where
  -- The reloader before the n-th send, and the certificate of that send.
  unfoldable pub reloader_at : ℕ → Reloader (Credential Key)
  unfolding get_client_certificate
  reloader_at zero = s.reloader
  reloader_at (suc n) = (get_client_certificate (w.disk n) (reloader_at n)).1

  unfoldable pub certificate_at : ℕ → Result Error (Credential Key)
  unfolding reloader_at
  certificate_at n = as_error (get_client_certificate (w.disk n) (reloader_at n)).0

  -- The n-th send of a payload, by a client.
  unfoldable pub ingest_at :
      ℕ → AlertPayload → Credential Key → Client Pub → Exchange Pub (Unit {0})
  unfolding ingest
  ingest_at n payload cred c =
      ingest suite codec (w.first_attempt n) (w.second_attempt n) payload (some cred) c

  abbrev exchange_with :
      ℕ → AlertPayload → Client Pub → Result Error (Credential Key) → List Sent × Client Pub
  exchange_with n payload c (err e) = ([], c)
  exchange_with n payload c (ok cred) = let x = ingest_at n payload cred c in (x.requests, x.client)

  -- The client before the n-th send, which those before it made.
  unfoldable pub client_at : AlertPayload → ℕ → Client Pub
  unfolding certificate_at ingest_at
  client_at payload zero = s.client
  client_at payload (suc n) = (exchange_with n payload (client_at payload n) (certificate_at n)).1

  -- Both after the first n sends.
  unfoldable pub state_after : AlertPayload → ℕ → SignedState Pub Key
  unfolding client_at
  state_after payload n = record { reloader = reloader_at n; client = client_at payload n }

  -- The requests of the first n sends.
  unfoldable pub requests_before : AlertPayload → ℕ → List Sent
  unfolding client_at
  requests_before payload zero = []
  requests_before payload (suc n) =
      requests_before payload n
      ++ (exchange_with n payload (client_at payload n) (certificate_at n)).0

  abbrev pub signed_transport : Transport (Credential Key)
  signed_transport =
      signed certificate_at
        (λ n payload cred. error_of (ingest_at n payload cred (client_at payload n)).result)

  -- The forwarder of NewSigned; this transport takes its clock and its nonces from the attempts.
  unfoldable pub signed_world : World (Credential Key)
  unfolding client_at
  signed_world = record {
    transport = signed_transport;
    cancelled = w.cancelled;
    unix_now = λ n. 0;
    fresh_nonce = λ n. [];
    status_code = w.status_code;
  }
