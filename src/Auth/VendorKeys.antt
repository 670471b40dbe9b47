-- ===== src/Auth/VendorKeys.antt =====
-- internal/auth/signedclient.go: fetchKeysLocked and activeKey, the cache of the brain's keys.
pub mod Trusted
pub mod Vouched
use muthur_collector.Prelude.{
  ℕ, ◌+◌, ◌*◌, Bool, ◌||◌, not, Option, none, some, List, [], ◌∷◌, ◌++◌, Text, text, decimal, ◌==◌,
  nat_eq, bytes_eq, ltb, if◌then◌else◌, true, false,
}
use muthur_collector.Prelude.Int.{ℤ, pos, pos_part, neg_part}
use muthur_collector.Prelude.Numbers.{format_int}
use muthur_collector.Prelude.Result.{Result, ok, err, ◌>>=◌}
use muthur_collector.Prelude.Strings.{trim_space}
use muthur_collector.Errors.{HttpError, Error, http, other, wrap, as_http}
use muthur_collector.Auth.Crypto.{Hpke, Gcm, context}
use muthur_collector.Auth.HttpSig.{Primitives, content_digest, sign_request}
use muthur_collector.Auth.SignatureBase.{
  Header, SignatureError, missing, invalid, key_type, digest_mismatch, malformed, not_signed,
  header_set, header_timestamp, header_nonce, header_cert, header_hpke_kid, header_content_digest,
}
use muthur_collector.Auth.Sealed.{seal_request, open_response}
use muthur_collector.Auth.Sealed.Payload.{Verifiers, verify_payload}
use muthur_collector.Auth.Sealed.Keys.{HpkePublicKey, hpke_key_id}
use muthur_collector.Auth.Transport.{
  Suite, AdvertisedKey, Attempt, Client, KeysDocument, decode_http_error, ok_body, signed_keys_ttl,
}

abbrev fail_if : Text → Option Error → Result Error (Unit {0})
fail_if message none = ok tt
fail_if message (some e) = context message (err e)

abbrev decoded_or : Text → Option Text → Result Error Text
decoded_or message none = err (other message)
decoded_or message (some bytes) = ok bytes

-- now.Sub(fetched) > signedKeysTTL
abbrev pub is_stale : ℤ → ℤ → Bool
is_stale now fetched =
    ltb (pos_part fetched + neg_part now + signed_keys_ttl) (pos_part now + neg_part fetched)

module _ {Pub Priv Sender Recipient Block Aead Key SigPub Cert : Type 0}
    (suite : Suite Pub Priv Sender Recipient Block Aead Key SigPub Cert) where
  -- An entry of the payload, if it is of the suite, parses and has the id of its key.
  abbrev with_id : Text → Result Error Pub → List (HpkePublicKey Pub)
  with_id kid (err e) = []
  with_id kid (ok pub_key) =
      if hpke_key_id suite.hpke suite.prims.sha256 pub_key == kid
      then record { kid = kid; key = pub_key } ∷ []
      else []

  abbrev parsed_key : Text → Option Text → List (HpkePublicKey Pub)
  parsed_key kid none = []
  parsed_key kid (some raw) = with_id kid (suite.hpke.parse_public raw)

  abbrev usable_key : AdvertisedKey → List (HpkePublicKey Pub)
  usable_key k =
      if not (k.kem == text "dhkem-x25519-hkdf-sha256")
        || not (k.kdf == text "hkdf-sha256")
        || not (k.aead == text "aes-256-gcm")
      then []
      else parsed_key k.kid (suite.prims.b64_decode k.public_key)

  unfoldable pub usable_keys : List AdvertisedKey → List (HpkePublicKey Pub)
  unfolding hpke_key_id
  usable_keys [] = []
  usable_keys (k ∷ keys) = usable_key k ++ usable_keys keys

  abbrev some_keys : List (HpkePublicKey Pub) → Result Error (List (HpkePublicKey Pub))
  some_keys [] = err (other (text "auth: brain advertises no usable HPKE key"))
  some_keys (k ∷ keys) = ok (k ∷ keys)

  -- The checks of the signed document.
  unfoldable pub verify_document : ℤ → KeysDocument → Result Error Text
  unfolding verify_payload
  verify_document now doc = do
    payload ←
        decoded_or (text "auth: brain keys: malformed payload") (suite.prims.b64_decode doc.payload)
    sig ←
        decoded_or (text "auth: brain keys: malformed signature")
          (suite.prims.b64_decode doc.signature)
    signer_der ←
        decoded_or (text "auth: brain keys: malformed signer") (suite.prims.b64_decode doc.signer)
    signer ←
        context (text "auth: brain keys: parse signer") (suite.docs.parse_certificate signer_der)
    trusted ←
        fail_if (text "auth: brain keys: signer not trusted by vendor CA")
          (suite.docs.chain_error now signer)
    signed ←
        fail_if (text "auth: brain keys: bad signature")
          (verify_payload suite.docs.verifiers signer payload sig)
    ok payload

  -- fetchKeysLocked, but for the assignments at its end.
  unfoldable pub fetch_keys : Attempt → Result Error (List (HpkePublicKey Pub))
  unfolding decode_http_error verify_document usable_keys
  fetch_keys attempt = do
    reply ← context (text "auth: fetch brain keys") attempt.get_keys
    body ← ok_body suite (text "auth: read brain keys") reply
    doc ← context (text "auth: decode brain keys") (suite.docs.decode_document body)
    payload ← verify_document attempt.verified_at doc
    advertised ←
        context (text "auth: brain keys: decode payload") (suite.docs.decode_payload payload)
    some_keys (usable_keys advertised)

  -- The active key of a client with keys; the index is out of range without one.
  abbrev first_key : Client Pub → Result Error (HpkePublicKey Pub) × Client Pub
  first_key c = elim c.keys [
    | [] ↦ (err (other (text "index out of range")), c)
    | k ∷ keys ↦ (ok k, c)
  ]

  abbrev store_keys :
      Attempt
      → Client Pub
      → Result Error (List (HpkePublicKey Pub))
      → Result Error (HpkePublicKey Pub) × Client Pub
  store_keys attempt c (err e) = (err e, c)
  store_keys attempt c (ok keys) = first_key (record { keys = keys; fetched = attempt.fetched_at })

  abbrev no_keys : List (HpkePublicKey Pub) → Bool
  no_keys [] = true
  no_keys (k ∷ keys) = false

  unfoldable pub active_key :
      Attempt → Bool → Client Pub → Result Error (HpkePublicKey Pub) × Client Pub
  unfolding fetch_keys
  active_key attempt refresh c =
      if refresh || no_keys c.keys || is_stale attempt.checked_at c.fetched
      then store_keys attempt c (fetch_keys attempt)
      else first_key c
