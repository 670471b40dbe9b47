-- ===== src/Auth/VendorKeys/Trusted.antt =====
-- The payloads that the vendor vouches for.
use mathlib.Core.Path.{subst}
use muthur_collector.Prelude.{◌≡◌, refl, Option, none, some, Text, text, bytes_eq}
use muthur_collector.Prelude.Int.{ℤ}
use muthur_collector.Prelude.Result.{Result, ok, bind-eq-ok, ◌>>=◌}
use muthur_collector.Errors.{Error}
use muthur_collector.Auth.Crypto.{context}
use muthur_collector.Auth.Sealed.Payload.{verify_payload}
use muthur_collector.Auth.Transport.{Suite, KeysDocument}
use muthur_collector.Auth.VendorKeys.{fail_if, decoded_or, verify_document}

fail_if-eq-ok :
    (message : Text) (e : Option Error) (u : Unit {0}) → fail_if message e ≡ ok u → e ≡ none
fail_if-eq-ok message none u h = refl
fail_if-eq-ok message (some e) u h = cc

module _ {Pub Priv Sender Recipient Block Aead Key SigPub Cert : Type 0}
    (suite : Suite Pub Priv Sender Recipient Block Aead Key SigPub Cert) where
  -- A payload that is signed by a certificate under the vendor's roots.
  pub record IsTrusted (payload : Text) : Type 0 where
    pub at : ℤ
    pub signer : Cert
    pub signature : Text
    pub chained : suite.docs.chain_error at signer ≡ none
    pub signed : verify_payload suite.docs.verifiers signer payload signature ≡ none

  -- The steps of VerifyDocument after the decoding of its payload, as functions of what precedes them.
  abbrev after_chain : Text → Text → Cert → Result Error Text
  after_chain payload sig signer =
      fail_if (text "auth: brain keys: bad signature")
        (verify_payload suite.docs.verifiers signer payload sig)
      >>= (λ signed. ok payload)

  abbrev after_signer : ℤ → Text → Text → Cert → Result Error Text
  after_signer now payload sig signer =
      fail_if (text "auth: brain keys: signer not trusted by vendor CA")
        (suite.docs.chain_error now signer)
      >>= (λ trusted. after_chain payload sig signer)

  abbrev after_der : ℤ → Text → Text → Text → Result Error Text
  after_der now payload sig der =
      context (text "auth: brain keys: parse signer") (suite.docs.parse_certificate der)
      >>= after_signer now payload sig

  abbrev after_signature : ℤ → Text → Text → Text → Result Error Text
  after_signature now signer payload sig =
      decoded_or (text "auth: brain keys: malformed signer") (suite.prims.b64_decode signer)
      >>= after_der now payload sig

  abbrev after_payload : ℤ → KeysDocument → Text → Result Error Text
  after_payload now doc payload =
      decoded_or (text "auth: brain keys: malformed signature")
        (suite.prims.b64_decode doc.signature)
      >>= after_signature now doc.signer payload

  -- A document that VerifyDocument accepts has a trusted payload.
  pub verify_document-IsTrusted :
      (now : ℤ) (doc : KeysDocument) (payload : Text)
      → verify_document suite now doc ≡ ok payload
      → IsTrusted payload
  unfolding verify_document
  verify_document-IsTrusted now doc payload e =
      let (p, _, e₁) =
        bind-eq-ok
          (decoded_or (text "auth: brain keys: malformed payload")
            (suite.prims.b64_decode doc.payload))
          (after_payload now doc) e in
      let (sig, _, e₂) =
        bind-eq-ok
          (decoded_or (text "auth: brain keys: malformed signature")
            (suite.prims.b64_decode doc.signature))
          (after_signature now doc.signer p) e₁ in
      let (der, _, e₃) =
        bind-eq-ok
          (decoded_or (text "auth: brain keys: malformed signer")
            (suite.prims.b64_decode doc.signer))
          (after_der now p sig) e₂ in
      let (signer, _, e₄) =
        bind-eq-ok
          (context (text "auth: brain keys: parse signer") (suite.docs.parse_certificate der))
          (after_signer now p sig) e₃ in
      let (u, chained, e₅) =
        bind-eq-ok
          (fail_if (text "auth: brain keys: signer not trusted by vendor CA")
            (suite.docs.chain_error now signer))
          (λ u. after_chain p sig signer) e₄ in
      let (v, signed, e₆) =
        bind-eq-ok {A = Unit {0}} {B = Text}
          (fail_if (text "auth: brain keys: bad signature")
            (verify_payload suite.docs.verifiers signer p sig))
          (λ v. ok p) e₅ in
      let same : p ≡ payload = cc e₆ in
      subst IsTrusted same (record {
        at = now;
        signer = signer;
        signature = sig;
        chained = fail_if-eq-ok _ _ u chained;
        signed = fail_if-eq-ok _ _ v signed;
      })
