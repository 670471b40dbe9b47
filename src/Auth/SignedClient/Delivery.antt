-- ===== src/Auth/SignedClient/Delivery.antt =====
-- The brain can read and verify what the client sends: the sealed envelope, the digest and the signature
-- together.
use muthur_collector.Prelude.{
  ◌+◌, ◌≤◌, ◌≡◌, refl, ap, ◌∙◌, none, some, List, [], ◌∷◌, ◌++◌, Text, text, text_eq, text_eq_refl,
  bytes_eq,
}
use muthur_collector.Prelude.Assoc.{lookup}
use muthur_collector.Prelude.Int.{pos_part, neg_part}
use muthur_collector.Prelude.Numbers.{max_int64, format_int}
use muthur_collector.Prelude.Result.{Result, ok, err, bind-eq-ok, ◌>>=◌}
use muthur_collector.Prelude.Strings.{is_space, trim_space}
use muthur_collector.Prelude.Strings.Laws.{Ends-append, trim_space-Ends}
use muthur_collector.Auth.Crypto.{IsHpke}
use muthur_collector.Auth.HttpSig.{
  Primitives, content_digest, cert_key_id, sign_request, verify_request, verify_content_digest,
}
use muthur_collector.Auth.SignatureBase.{
  Header, signature_label, header_get, header_set, header_timestamp, header_nonce, header_cert,
  header_hpke_kid, header_content_digest, signature_params, SignatureError,
}
use muthur_collector.Auth.HttpSig.RoundTrip.{
  IsSound, signed, signature_text, sign_request-eq-ok, verify_request-sign_request,
}
use muthur_collector.Auth.Sealed.{HpkeKeySet, seal_request, open_request}
use muthur_collector.Auth.Sealed.Conversation.{open_request-seal_request}
use muthur_collector.Auth.Sealed.Keys.{HpkePublicKey}
use muthur_collector.Auth.SignedClient.{prepare, plain_header, signed_with, signed_or_error}
use muthur_collector.Auth.Transport.{Suite, Attempt, Credential, Sent}

-- The headers that the brain reads, below those of the signature and the certificate.
module _ {Pub Priv Sender Recipient Block Aead Key SigPub Cert : Type 0}
    (suite : Suite Pub Priv Sender Recipient Block Aead Key SigPub Cert) (attempt : Attempt)
    (kid body cert v w : Text) where
  abbrev full : Header
  full = signed (header_set header_cert cert (plain_header suite attempt kid body)) v w

  full-kid : header_get full header_hpke_kid ≡ kid
  unfolding header_get header_set text_eq
  full-kid = refl

  full-timestamp : header_get full header_timestamp ≡ format_int attempt.created
  unfolding header_get header_set text_eq
  full-timestamp = refl

  full-nonce : header_get full header_nonce ≡ attempt.nonce
  unfolding header_get header_set text_eq
  full-nonce = refl

  full-content_digest : header_get full header_content_digest ≡ content_digest suite.prims body
  unfolding header_get header_set text_eq
  full-content_digest = refl

trim-content_digest :
    {Key SigPub : Type 0} (p : Primitives Key SigPub) (body : Text)
    → trim_space (content_digest p body) ≡ content_digest p body
unfolding content_digest is_space
trim-content_digest p body =
    trim_space-Ends b's' (text "ha-256=:" ++ (p.b64_encode (p.sha256 body) ++ b':' ∷ [])) b':' refl
      refl (Ends-append b':' (text "ha-256=:") _ (p.b64_encode (p.sha256 body), refl))

verify_content_digest-of_eq :
    {Key SigPub : Type 0} (p : Primitives Key SigPub) (h : Header) (body : Text)
    → header_get h header_content_digest ≡ content_digest p body
    → verify_content_digest p h body ≡ none
unfolding verify_content_digest content_digest text_eq
verify_content_digest-of_eq p h body same =
    rw (same, trim-content_digest p body, text_eq_refl (content_digest p body)) refl

-- What the brain does with a request before it answers.
pub record IsReadable {Pub Priv Sender Recipient Block Aead Key SigPub Cert : Type 0}
    (suite : Suite Pub Priv Sender Recipient Block Aead Key SigPub Cert) (ks : HpkeKeySet Priv)
    (public : SigPub) (attempt : Attempt) (raw leaf_der opener : Text) (sent : Sent) : Type 0 where
  pub opened :
      open_request suite.hpke ks
        (header_get sent.header header_hpke_kid)
        sent.path
        (header_get sent.header header_timestamp)
        (header_get sent.header header_nonce)
        sent.body
      ≡ ok (raw, opener)
  pub digest : verify_content_digest suite.prims sent.header sent.body ≡ none
  pub verified :
      verify_request suite.prims (text "POST") sent.path sent.header (some public)
      ≡ ok (record { created = attempt.created; key_id = cert_key_id suite.prims leaf_der })

module _ {Pub Priv Sender Recipient Block Aead Key SigPub Cert : Type 0}
    (suite : Suite Pub Priv Sender Recipient Block Aead Key SigPub Cert) where
  -- A request with a credential that was prepared.
  record IsPrepared (attempt : Attempt) (path raw leaf_der : Text) (key : Key)
      (k : HpkePublicKey Pub) (sent : Sent) (opener : Text) : Type 0 where
    body : Text
    header : Header
    sealed :
        seal_request suite.hpke attempt.seal_random k.key path
          (format_int attempt.created)
          attempt.nonce
          raw
        ≡ ok (body, opener)
    signed_eq :
        sign_request suite.prims attempt.sign_random
          (header_set header_cert
            (suite.prims.b64_encode leaf_der)
            (plain_header suite attempt k.kid body))
          (text "POST")
          path
          (some key)
          leaf_der
          attempt.created
        ≡ ok header
    sent_eq : sent ≡ record { path = path; header = header; body = body }

  signed_or_error-eq-ok :
      (r : Result SignatureError Header) (h : Header) → signed_or_error suite r ≡ ok h → r ≡ ok h
  signed_or_error-eq-ok (ok g) h e = cc
  signed_or_error-eq-ok (err x) h e = cc

  prepare-IsPrepared :
      (attempt : Attempt) (path raw leaf_der : Text) (chain : List Text) (key : Key)
      (k : HpkePublicKey Pub) (sent : Sent) (opener : Text)
      → prepare suite attempt path raw
          (some (record { chain = leaf_der ∷ chain; private_key = some key }))
          k
        ≡ ok (sent, opener)
      → IsPrepared attempt path raw leaf_der key k sent opener
  unfolding prepare
  prepare-IsPrepared attempt path raw leaf_der chain key k sent opener e =
      let cred : Credential Key = record { chain = leaf_der ∷ chain; private_key = some key } in
      let ((body, o), sealed, e₁) =
        bind-eq-ok {B = Sent × Text}
          (seal_request suite.hpke attempt.seal_random k.key path (format_int attempt.created)
            attempt.nonce raw)
          (λ x.
            ◌>>=◌ {B = Sent × Text}
              (signed_with suite attempt path (plain_header suite attempt k.kid x.0) (some cred))
              (λ h. ok (record { path = path; header = h; body = x.0 }, x.1)))
          e in
      let (h, made, e₂) =
        bind-eq-ok {B = Sent × Text}
          (signed_with suite attempt path (plain_header suite attempt k.kid body) (some cred))
          (λ h. ok (record { path = path; header = h; body = body }, o)) e₁ in
      let same : o ≡ opener = cc e₂ in
      record {
        body = body;
        header = h;
        sealed = sealed ∙ ap (λ (x : Text). ok (body, x)) same;
        signed_eq = signed_or_error-eq-ok _ h made;
        sent_eq = cc e₂;
      }

-- With an HPKE whose two ends agree and primitives that are sound: where a request with a P-256
-- credential is prepared for a key of the receiver, the receiver opens its body and gets the plaintext
-- and the key of the response, finds the digest of the body in the header, and the headers verify under
-- the public half of the signing key, for the time of the attempt and the leaf certificate.
pub prepare-IsReadable :
    {Pub Priv Sender Recipient Block Aead Key SigPub Cert : Type 0}
    (suite : Suite Pub Priv Sender Recipient Block Aead Key SigPub Cert) (ks : HpkeKeySet Priv)
    (public : Key → SigPub) (attempt : Attempt) (path raw leaf_der : Text) (chain : List Text)
    (key : Key) (k : HpkePublicKey Pub) (priv : Priv) (sent : Sent) (opener : Text)
    → IsHpke suite.hpke
    → IsSound suite.prims public
    → pos_part attempt.created ≤ max_int64
    → neg_part attempt.created ≤ max_int64 + 1
    → lookup k.kid ks.keys ≡ some priv
    → k.key ≡ suite.hpke.public_key priv
    → prepare suite attempt path raw
        (some (record { chain = leaf_der ∷ chain; private_key = some key }))
        k
      ≡ ok (sent, opener)
    → IsReadable suite ks (public key) attempt raw leaf_der opener sent
prepare-IsReadable suite ks public attempt path raw leaf_der chain key k priv sent opener hpke sound
      above below found fits e =
    let p = prepare-IsPrepared suite attempt path raw leaf_der chain key k sent opener e in
    let cert = suite.prims.b64_encode leaf_der in
    let h = header_set header_cert cert (plain_header suite attempt k.kid p.body) in
    let (r, s, curve, made, same) =
      sign_request-eq-ok suite.prims public sound attempt.sign_random (text "POST") path h p.header
        key leaf_der attempt.created p.signed_eq in
    let v = signature_text suite.prims public sound r s in
    let w =
      signature_label
      ++ (text "=" ++ signature_params attempt.created (cert_key_id suite.prims leaf_der)) in
    record {
      opened =
          rw
            (
              p.sent_eq,
              same,
              full-kid suite attempt k.kid p.body cert v w,
              full-timestamp suite attempt k.kid p.body cert v w,
              full-nonce suite attempt k.kid p.body cert v w,
            )
            (open_request-seal_request suite.hpke ks k.kid priv attempt.seal_random path
              (format_int attempt.created) attempt.nonce raw p.body opener hpke found
              (rw fits at p.sealed));
      digest = rw p.sent_eq (
          verify_content_digest-of_eq suite.prims p.header p.body
            (rw same (full-content_digest suite attempt k.kid p.body cert v w)));
      verified = rw p.sent_eq (
          verify_request-sign_request suite.prims public attempt.sign_random (text "POST") path h
            p.header key leaf_der attempt.created sound above below p.signed_eq);
    }
