-- ===== src/Forwarder/Signed/Delivered.antt =====
-- When a Forward over the signed transport succeeds.
use muthur_collector.Prelude.{
  ℕ, suc, ◌+◌, ◌≤◌, ◌<◌, ◌≡◌, refl, true, none, some, List, [], ◌∷◌, ◌++◌, Text, arith, false,
}
use muthur_collector.Prelude.Assoc.{lookup}
use muthur_collector.Prelude.Int.{pos_part, neg_part}
use muthur_collector.Prelude.Numbers.{max_int64}
use muthur_collector.Prelude.Result.{ok}
use muthur_collector.Metrics.{Counters}
use muthur_collector.Proto.{AlertPayload}
use muthur_collector.Auth.Crypto.{IsHpke, IsGcm}
use muthur_collector.Auth.HttpSig.RoundTrip.{IsSound}
use muthur_collector.Auth.Sealed.{HpkeKeySet}
use muthur_collector.Auth.Sealed.Keys.{HpkePublicKey}
use muthur_collector.Auth.Transport.{Suite, Client, Credential, Sent, signed_path_ingest}
use muthur_collector.Auth.VendorKeys.{active_key}
use muthur_collector.Auth.SignedClient.{prepare, call}
use muthur_collector.Auth.SignedClient.Calls.{IsHonest, call-answered}
use muthur_collector.Auth.SignedClient.Endpoints.{Codec, ingest}
use muthur_collector.Forwarder.{forward, send}
use muthur_collector.Forwarder.Retry.{is_transient, forward_reaches}
use muthur_collector.Forwarder.Signed.{
  SignedWorld, SignedState, certificate_at, ingest_at, client_at, requests_before, signed_world,
}

module _ {Pub Priv Sender Recipient Block Aead Key SigPub Cert : Type 0}
    (suite : Suite Pub Priv Sender Recipient Block Aead Key SigPub Cert) (codec : Codec)
    (w : SignedWorld Key) (s : SignedState Pub Key) (payload : AlertPayload) where
  send-delivered :
      (n : ℕ) (cred : Credential Key) (c' : Client Pub) (sent : Sent)
      → certificate_at suite codec w s n ≡ ok cred
      → ingest_at suite codec w s n payload cred (client_at suite codec w s payload n)
        ≡ record { result = ok tt; requests = sent ∷ []; client = c' }
      → (send (signed_world suite codec w s) n payload ≡ none)
        × (requests_before suite codec w s payload (suc n)
            ≡ requests_before suite codec w s payload n ++ sent ∷ [])
  unfolding send signed_world requests_before
  send-delivered n cred c' sent cert made = (rw (cert, made) refl, rw (cert, made) refl)

  ingest_at-answered :
      (n : ℕ) (cred : Credential Key) (raw answered : Text) (c' : Client Pub) (sent : Sent)
      → codec.encode_payload payload ≡ ok raw
      → codec.decode_ingest answered ≡ ok tt
      → call suite
          (w.first_attempt n)
          (w.second_attempt n)
          signed_path_ingest
          raw
          (some cred)
          (client_at suite codec w s payload n)
        ≡ record { result = ok answered; requests = sent ∷ []; client = c' }
      → ingest_at suite codec w s n payload cred (client_at suite codec w s payload n)
        ≡ record { result = ok tt; requests = sent ∷ []; client = c' }
  unfolding ingest_at ingest
  ingest_at-answered n cred raw answered c' sent encoded decoded made =
      rw (encoded, made, decoded) refl

-- With lawful cryptography and an honest brain at the n-th of the three sends: if the sends before it
-- failed with errors that are not permanent and no wait was cancelled, the reloader had a P-256
-- certificate for it, the active key is the brain's, the request could be prepared and the brain's
-- answer decodes, then Forward succeeds with that send, and its last request is that one.
pub forward-delivers :
    {Pub Priv Sender Recipient Block Aead Key SigPub Cert : Type 0}
    (suite : Suite Pub Priv Sender Recipient Block Aead Key SigPub Cert) (codec : Codec)
    (w : SignedWorld Key) (s : SignedState Pub Key) (payload : AlertPayload) (m : Counters)
    (ks : HpkeKeySet Priv) (public : Key → SigPub) (answer : Text → Text) (n : ℕ)
    (raw leaf_der : Text) (chain : List Text) (key : Key) (k : HpkePublicKey Pub) (priv : Priv)
    (sent : Sent) (opener : Text) (c' : Client Pub)
    → IsHpke suite.hpke
    → IsGcm suite.gcm
    → IsSound suite.prims public
    → IsHonest suite ks (public key) answer (w.first_attempt n)
    → pos_part (w.first_attempt n).created ≤ max_int64
    → neg_part (w.first_attempt n).created ≤ max_int64 + 1
    → n < 3
    → ((j : ℕ)
        → j < n
        → is_transient w.status_code (send (signed_world suite codec w s) j payload) ≡ true)
    → ((j : ℕ) → j < n → w.cancelled (j + 1) ≡ none)
    → let cred : Credential Key = record { chain = leaf_der ∷ chain; private_key = some key } in
      certificate_at suite codec w s n ≡ ok cred
      → codec.encode_payload payload ≡ ok raw
      → codec.decode_ingest (answer raw) ≡ ok tt
      → active_key suite (w.first_attempt n) false (client_at suite codec w s payload n)
        ≡ (ok k, c')
      → lookup k.kid ks.keys ≡ some priv
      → k.key ≡ suite.hpke.public_key priv
      → prepare suite (w.first_attempt n) signed_path_ingest raw (some cred) k ≡ ok (sent, opener)
      → let run = forward (signed_world suite codec w s) payload m in
        (run.error ≡ none)
        × (run.sends ≡ suc n)
        × (requests_before suite codec w s payload run.sends
            ≡ requests_before suite codec w s payload n ++ sent ∷ [])
unfolding signed_world
forward-delivers {Key = Key} suite codec w s payload m ks public answer n raw leaf_der chain key k
      priv sent opener c' hpke gcm sound honest above below small transient waits cert encoded
      decoded active found fits made =
    let cred : Credential Key = record { chain = leaf_der ∷ chain; private_key = some key } in
    let answered =
      call-answered suite ks public answer (w.first_attempt n) (w.second_attempt n)
        signed_path_ingest raw leaf_der chain key k priv sent opener
        (client_at suite codec w s payload n) c' hpke gcm sound honest above below active found fits
        made in
    let (accepted, requests) = send-delivered suite codec w s payload n cred c' sent cert (
      ingest_at-answered suite codec w s payload n cred raw (answer raw) c' sent encoded decoded
        answered) in
    let (fine, sends) =
      forward_reaches (signed_world suite codec w s) payload m n small accepted transient waits in
    let count : (forward (signed_world suite codec w s) payload m).sends ≡ suc n =
      omega (arith, sends) in
    (fine, count, rw count requests)
