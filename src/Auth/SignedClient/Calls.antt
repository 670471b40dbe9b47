-- ===== src/Auth/SignedClient/Calls.antt =====
-- How many requests a call makes, and what it returns when the edge and the brain are honest.
use muthur_collector.Prelude.{
  ◌+◌, ◌≤◌, ◌<◌, ◌≡◌, refl, inl, inr, Bool, true, false, none, some, List, [], ◌∷◌, Text, text,
  Option, nat_eq, bytes_eq, arith, length, length-append, Bool-cases, ◌++◌,
}
use muthur_collector.Prelude.Assoc.{lookup}
use muthur_collector.Prelude.Int.{pos_part, neg_part}
use muthur_collector.Prelude.Numbers.{max_int64}
use muthur_collector.Prelude.Result.{Result, ok, err, ◌>>=◌}
use muthur_collector.Errors.{Error}
use muthur_collector.Auth.Crypto.{IsHpke, IsGcm, context}
use muthur_collector.Auth.HttpSig.{SignatureInfo, verify_content_digest, verify_request}
use muthur_collector.Auth.SignatureBase.{
  header_get, header_hpke_kid, header_timestamp, header_nonce,
}
use muthur_collector.Auth.HttpSig.RoundTrip.{IsSound}
use muthur_collector.Auth.Sealed.{
  HpkeKeySet, gcm_nonce_len, open_request, seal_response, open_response,
}
use muthur_collector.Auth.Sealed.Conversation.{open_response-seal_response}
use muthur_collector.Auth.Sealed.Keys.{HpkePublicKey}
use muthur_collector.Auth.SignedClient.{
  prepare, read_reply, transmit, with_key, once, again, call, key_unknown,
}
use muthur_collector.Auth.Transport.{Suite, Client, Attempt, Credential, Exchange, Sent}
use muthur_collector.Auth.VendorKeys.{active_key}
use muthur_collector.Auth.SignedClient.Delivery.{IsReadable, prepare-IsReadable}

module _ {Pub Priv Sender Recipient Block Aead Key SigPub Cert : Type 0}
    (suite : Suite Pub Priv Sender Recipient Block Aead Key SigPub Cert) (path raw : Text)
    (cred : Option (Credential Key)) where
  transmit-requests :
      (attempt : Attempt) (c : Client Pub) (r : Result Error (Sent × Text))
      → length (transmit suite attempt c r).requests ≤ 1
  transmit-requests attempt c (err e) = omega arith
  transmit-requests attempt c (ok (sent, opener)) = omega arith

  with_key-requests :
      (attempt : Attempt) (r : Result Error (HpkePublicKey Pub) × Client Pub)
      → length (with_key suite attempt path raw cred r).requests ≤ 1
  with_key-requests attempt (err e, c) = omega arith
  with_key-requests attempt (ok k, c) =
      transmit-requests attempt c (prepare suite attempt path raw cred k)

  once-requests :
      (attempt : Attempt) (refresh : Bool) (c : Client Pub)
      → length (once suite attempt path raw cred refresh c).requests ≤ 1
  unfolding once
  once-requests attempt refresh c = with_key-requests attempt (active_key suite attempt refresh c)

  again-requests :
      (attempt : Attempt) (first : Exchange Pub Text)
      → length first.requests ≤ 1
      → (length (again suite attempt path raw cred first).requests ≤ 2)
        × (1 < length (again suite attempt path raw cred first).requests
            → (key_unknown suite first.result ≡ true)
              × ((again suite attempt path raw cred first).result
                  ≡ (once suite attempt path raw cred true first.client).result))
  again-requests attempt first small = elim (Bool-cases (key_unknown suite first.result)) [
    | inr done ↦ rw done ((omega arith, λ more. absurd (omega arith)))
    | inl retried ↦ rw retried (
        (
          omega (
            arith,
            length-append first.requests
                (once suite attempt path raw cred true first.client).requests,
            once-requests attempt true first.client,
          ),
          λ more. (refl, refl),
        ))
  ]

-- A call makes at most two requests; it makes the second only if the first attempt ended in the error
-- of an unknown key, and then it returns what the second attempt returned, with fresh keys.
pub call-requests :
    {Pub Priv Sender Recipient Block Aead Key SigPub Cert : Type 0}
    (suite : Suite Pub Priv Sender Recipient Block Aead Key SigPub Cert)
    (first_attempt second_attempt : Attempt) (path raw : Text) (cred : Option (Credential Key))
    (c : Client Pub)
    → let x = call suite first_attempt second_attempt path raw cred c in
      let first = once suite first_attempt path raw cred false c in
      (length x.requests ≤ 2)
      × (1 < length x.requests
          → (key_unknown suite first.result ≡ true)
            × (x.result ≡ (once suite second_attempt path raw cred true first.client).result))
unfolding call
call-requests suite first_attempt second_attempt path raw cred c =
    again-requests suite path raw cred second_attempt
      (once suite first_attempt path raw cred false c)
      (once-requests suite path raw cred first_attempt false c)

-- A brain that answers each request that it can open and verify, with what `answer` makes of the
-- plaintext, sealed under the key of the request.
pub record IsHonest {Pub Priv Sender Recipient Block Aead Key SigPub Cert : Type 0}
    (suite : Suite Pub Priv Sender Recipient Block Aead Key SigPub Cert) (ks : HpkeKeySet Priv)
    (public : SigPub) (answer : Text → Text) (attempt : Attempt) : Type 0 where
  pub answers :
      (sent : Sent) (plaintext key : Text) (info : SignatureInfo)
      → open_request suite.hpke ks
          (header_get sent.header header_hpke_kid)
          sent.path
          (header_get sent.header header_timestamp)
          (header_get sent.header header_nonce)
          sent.body
        ≡ ok (plaintext, key)
      → verify_content_digest suite.prims sent.header sent.body ≡ none
      → verify_request suite.prims (text "POST") sent.path sent.header (some public) ≡ ok info
      → (nonce : Text) × (body : Text) × (length nonce ≡ gcm_nonce_len)
        × (seal_response suite.gcm (ok nonce) key (answer plaintext) ≡ ok body)
        × (attempt.post sent ≡ ok (record { status = 200; body = ok body }))

module _ {Pub Priv Sender Recipient Block Aead Key SigPub Cert : Type 0}
    (suite : Suite Pub Priv Sender Recipient Block Aead Key SigPub Cert) (ks : HpkeKeySet Priv)
    (public : SigPub) (answer : Text → Text) (attempt : Attempt) where
  reply-answered :
      (raw leaf_der opener : Text) (sent : Sent)
      → IsGcm suite.gcm
      → IsHonest suite ks public answer attempt
      → IsReadable suite ks public attempt raw leaf_der opener sent
      → (context (text "auth: " ++ sent.path) (attempt.post sent) >>= read_reply suite opener)
        ≡ ok (answer raw)
  reply-answered raw leaf_der opener sent gcm honest r =
      let (nonce, body, size, sealed, replied) =
        honest.answers sent raw opener _ r.opened r.digest r.verified in
      let opened : open_response suite.gcm opener body ≡ ok (answer raw) =
        open_response-seal_response suite.gcm nonce opener (answer raw) body gcm size sealed in
      rw (replied, opened) refl

-- With lawful cryptography: a call with a P-256 credential, whose active key is the brain's and whose
-- request could be prepared, makes one request of an honest brain and returns the brain's answer to the
-- plaintext that it was given.
pub call-answered :
    {Pub Priv Sender Recipient Block Aead Key SigPub Cert : Type 0}
    (suite : Suite Pub Priv Sender Recipient Block Aead Key SigPub Cert) (ks : HpkeKeySet Priv)
    (public : Key → SigPub) (answer : Text → Text) (attempt second_attempt : Attempt)
    (path raw leaf_der : Text) (chain : List Text) (key : Key) (k : HpkePublicKey Pub) (priv : Priv)
    (sent : Sent) (opener : Text) (c c' : Client Pub)
    → IsHpke suite.hpke
    → IsGcm suite.gcm
    → IsSound suite.prims public
    → IsHonest suite ks (public key) answer attempt
    → pos_part attempt.created ≤ max_int64
    → neg_part attempt.created ≤ max_int64 + 1
    → active_key suite attempt false c ≡ (ok k, c')
    → lookup k.kid ks.keys ≡ some priv
    → k.key ≡ suite.hpke.public_key priv
    → let cred : Option (Credential Key) =
        some (record { chain = leaf_der ∷ chain; private_key = some key }) in
      prepare suite attempt path raw cred k ≡ ok (sent, opener)
      → call suite attempt second_attempt path raw cred c
        ≡ record { result = ok (answer raw); requests = sent ∷ []; client = c' }
unfolding call once
call-answered suite ks public answer attempt second_attempt path raw leaf_der chain key k priv sent
      opener c c' hpke gcm sound honest above below active found fits made =
    let readable =
      prepare-IsReadable suite ks public attempt path raw leaf_der chain key k priv sent opener hpke
        sound above below found fits made in
    rw
      (
        active,
        made,
        reply-answered suite ks (public key) answer attempt raw leaf_der opener sent gcm honest
            readable,
      )
      refl
