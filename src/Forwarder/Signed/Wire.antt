-- ===== src/Forwarder/Signed/Wire.antt =====
-- What a Forward over the signed transport puts on the wire.
use muthur_collector.Prelude.{
  ℕ, zero, suc, ◌*◌, ◌≤◌, ◌≡◌, refl, some, List, [], ◌∷◌, Text, arith, length, length-append,
}
use muthur_collector.Prelude.All.{All, All-append}
use muthur_collector.Prelude.Result.{Result, ok, err}
use muthur_collector.Errors.{Error}
use muthur_collector.Proto.{AlertPayload}
use muthur_collector.Auth.Transport.{Suite, Client, Credential, Sent, signed_path_ingest}
use muthur_collector.Auth.VendorKeys.Vouched.{IsVouched}
use muthur_collector.Auth.SignedClient.Endpoints.{Codec, ingest, call_with}
use muthur_collector.Auth.SignedClient.Calls.{call-requests}
use muthur_collector.Auth.SignedClient.Keys.{IsSealedTo, call-IsSafe}
use muthur_collector.Forwarder.Signed.{
  SignedWorld, SignedState, certificate_at, ingest_at, exchange_with, client_at, requests_before,
}

module _ {Pub Priv Sender Recipient Block Aead Key SigPub Cert : Type 0}
    (suite : Suite Pub Priv Sender Recipient Block Aead Key SigPub Cert) (codec : Codec) where
  -- A request that carries the payload: it is signed with a credential, and sealed to a vouched key.
  pub record IsAlert (payload : AlertPayload) (sent : Sent) : Type 0 where
    pub raw : Text
    pub encoded : codec.encode_payload payload ≡ ok raw
    pub credential : Credential Key
    pub sealed : IsSealedTo suite signed_path_ingest raw (some credential) sent

  -- The requests of one send, and the client after it.
  abbrev IsCarried : AlertPayload → List Sent × Client Pub → Type 0
  IsCarried payload (requests, c) =
      All (IsAlert payload) requests × (length requests ≤ 2) × All (IsVouched suite) c.keys

  All-IsAlert :
      (payload : AlertPayload) (raw : Text) (cred : Credential Key) (requests : List Sent)
      → codec.encode_payload payload ≡ ok raw
      → All (IsSealedTo suite signed_path_ingest raw (some cred)) requests
      → All (IsAlert payload) requests
  All-IsAlert payload raw cred [] e h = tt
  All-IsAlert payload raw cred (sent ∷ requests) e h = (
    record { raw = raw; encoded = e; credential = cred; sealed = h.0 },
    All-IsAlert payload raw cred requests e h.1,
  )

  module _ (w : SignedWorld Key) (s : SignedState Pub Key) (payload : AlertPayload) where
    ingest-IsCarried :
        (n : ℕ) (cred : Credential Key) (c : Client Pub) (encoded : Result Error Text)
        → codec.encode_payload payload ≡ encoded
        → All (IsVouched suite) c.keys
        → let x =
            call_with suite codec
              (w.first_attempt n)
              (w.second_attempt n)
              signed_path_ingest
              encoded
              codec.decode_ingest
              (some cred)
              c in
          IsCarried payload (x.requests, x.client)
    ingest-IsCarried n cred c (err e) made v = (tt, omega arith, v)
    ingest-IsCarried n cred c (ok raw) made v =
        let safe =
          call-IsSafe suite (w.first_attempt n) (w.second_attempt n) signed_path_ingest raw
            (some cred) c v in
        let few =
          call-requests suite (w.first_attempt n) (w.second_attempt n) signed_path_ingest raw
            (some cred) c in
        (All-IsAlert payload raw cred _ made safe.sealed, few.0, safe.kept)

    exchange_with-IsCarried :
        (n : ℕ) (c : Client Pub) (cert : Result Error (Credential Key))
        → All (IsVouched suite) c.keys
        → IsCarried payload (exchange_with suite codec w s n payload c cert)
    unfolding ingest_at ingest
    exchange_with-IsCarried n c (err e) v = (tt, omega arith, v)
    exchange_with-IsCarried n c (ok cred) v =
        ingest-IsCarried n cred c (codec.encode_payload payload) refl v

    pub client_at-AllVouched :
        (n : ℕ)
        → All (IsVouched suite) s.client.keys
        → All (IsVouched suite) (client_at suite codec w s payload n).keys
    unfolding client_at
    client_at-AllVouched zero v = v
    client_at-AllVouched (suc n) v =
        let (_, _, kept) =
          exchange_with-IsCarried n (client_at suite codec w s payload n)
            (certificate_at suite codec w s n) (client_at-AllVouched n v) in
        kept

    -- The requests of the first n sends of a payload, by a forwarder whose client holds vouched keys: each
    -- is the payload, encoded, sealed to a vouched key and signed; there are at most 2 for each send.
    pub requests_before-AllAlert :
        (n : ℕ)
        → All (IsVouched suite) s.client.keys
        → All (IsAlert payload) (requests_before suite codec w s payload n)
          × (length (requests_before suite codec w s payload n) ≤ 2 * n)
    unfolding requests_before
    requests_before-AllAlert zero v = (tt, omega arith)
    requests_before-AllAlert (suc n) v =
        let (alerts, few) = requests_before-AllAlert n v in
        let (others, small, _) =
          exchange_with-IsCarried n (client_at suite codec w s payload n)
            (certificate_at suite codec w s n) (client_at-AllVouched n v) in
        (
          All-append (IsAlert payload) (requests_before suite codec w s payload n) _ alerts others,
          omega (
            arith,
            length-append (requests_before suite codec w s payload n)
                (exchange_with suite codec w s n payload (client_at suite codec w s payload n)
                  (certificate_at suite codec w s n)).0,
          ),
        )
