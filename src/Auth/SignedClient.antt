-- ===== src/Auth/SignedClient.antt =====
-- internal/auth/signedclient.go: one attempt of a call, and the call.
pub mod Keys
pub mod Calls
pub mod Delivery
pub mod Endpoints
pub mod Workers
use muthur_collector.Prelude.{
  ℕ, ◌+◌, ◌*◌, Bool, ◌||◌, not, Option, none, some, List, [], ◌∷◌, ◌++◌, Text, text, decimal, ◌==◌,
  nat_eq, bytes_eq, ltb, if◌then◌else◌, true, false,
}
use muthur_collector.Prelude.Int.{ℤ, pos, pos_part, neg_part}
use muthur_collector.Prelude.Numbers.{format_int}
use muthur_collector.Prelude.Result.{Result, ok, err, ◌>>=◌}
use muthur_collector.Prelude.Strings.{trim_space}
use muthur_collector.Errors.{HttpError, Error, http, other, wrap, as_http}
use muthur_collector.Auth.Crypto.{Hpke, Gcm, context}
use muthur_collector.Auth.HttpSig.{Primitives, content_digest, sign_request}
use muthur_collector.Auth.SignatureBase.{
  Header, SignatureError, missing, invalid, key_type, digest_mismatch, malformed, not_signed,
  header_set, header_timestamp, header_nonce, header_cert, header_hpke_kid, header_content_digest,
}
use muthur_collector.Auth.Sealed.{seal_request, open_response}
use muthur_collector.Auth.Sealed.Payload.{Verifiers, verify_payload}
use muthur_collector.Auth.Sealed.Keys.{HpkePublicKey, hpke_key_id}
use muthur_collector.Auth.Transport.{
  Suite, Attempt, Client, Credential, Exchange, HttpReply, Sent, code_hpke_key_unknown,
  decode_http_error, ok_body, sealed_content_type,
}
use muthur_collector.Auth.VendorKeys.{active_key}

-- The text of an ErrSignatureMalformed with a reason, if there is one.
abbrev malformed_text : Text → Text
malformed_text [] = text "auth: malformed signature headers"
malformed_text (c ∷ why) = text "auth: malformed signature headers: " ++ c ∷ why

abbrev pub signature_failure : SignatureError → Error
signature_failure missing = other (text "auth: request is not signed")
signature_failure invalid = other (text "auth: signature verification failed")
signature_failure key_type = other (text "auth: signing key must be ECDSA P-256")
signature_failure digest_mismatch = other (text "auth: content-digest does not match body")
signature_failure (malformed why) = other (malformed_text why)
signature_failure (not_signed e) = wrap (text "auth: sign request") (other e)

module _ {Pub Priv Sender Recipient Block Aead Key SigPub Cert : Type 0}
    (suite : Suite Pub Priv Sender Recipient Block Aead Key SigPub Cert) where
  -- The headers of every request, then those of a signed one.
  abbrev plain_header : Attempt → Text → Text → Header
  plain_header attempt kid body = header_set header_hpke_kid kid (
      header_set header_nonce attempt.nonce (
        header_set header_timestamp (format_int attempt.created) (
          header_set header_content_digest (content_digest suite.prims body) (
            header_set (text "Accept") sealed_content_type
              (header_set (text "Content-Type") sealed_content_type [])))))

  abbrev signed_or_error : Result SignatureError Header → Result Error Header
  signed_or_error (ok h) = ok h
  signed_or_error (err e) = err (signature_failure e)

  abbrev signed_by : Attempt → Text → Header → Text → Option Key → Result Error Header
  signed_by attempt path h leaf_der none =
      err (other (text "auth: signing key must be ECDSA P-256"))
  signed_by attempt path h leaf_der (some key) = signed_or_error (
      sign_request suite.prims attempt.sign_random
        (header_set header_cert (suite.prims.b64_encode leaf_der) h) (text "POST") path (some key)
        leaf_der attempt.created)

  abbrev signed_with : Attempt → Text → Header → Option (Credential Key) → Result Error Header
  signed_with attempt path h none = ok h
  signed_with attempt path h (some cred) = elim cred.chain [
    | [] ↦ err (other (text "auth: client cert has no certificate"))
    | leaf_der ∷ chain ↦ signed_by attempt path h leaf_der cred.private_key
  ]

  -- The request, and the key that opens its response.
  unfoldable pub prepare :
      Attempt
      → Text
      → Text
      → Option (Credential Key)
      → HpkePublicKey Pub
      → Result Error (Sent × Text)
  unfolding seal_request sign_request header_set content_digest format_int
  prepare attempt path raw cred k = do
    (body, opener) ←
        seal_request suite.hpke attempt.seal_random k.key path (format_int attempt.created)
          attempt.nonce raw
    header ← signed_with attempt path (plain_header attempt k.kid body) cred
    ok (record { path = path; header = header; body = body }, opener)

  abbrev read_reply : Text → HttpReply → Result Error Text
  read_reply opener reply = do
    body ← ok_body suite (text "auth: read response") reply
    context (text "auth: open response") (open_response suite.gcm opener body)

  abbrev pub transmit : Attempt → Client Pub → Result Error (Sent × Text) → Exchange Pub Text
  transmit attempt c (err e) = record { result = err e; requests = []; client = c }
  transmit attempt c (ok (sent, opener)) = record {
    result = context (text "auth: " ++ sent.path) (attempt.post sent) >>= read_reply opener;
    requests = sent ∷ [];
    client = c;
  }

  abbrev with_key :
      Attempt
      → Text
      → Text
      → Option (Credential Key)
      → Result Error (HpkePublicKey Pub) × Client Pub
      → Exchange Pub Text
  with_key attempt path raw cred (err e, c) = record { result = err e; requests = []; client = c }
  with_key attempt path raw cred (ok k, c) = transmit attempt c (prepare attempt path raw cred k)

  -- One attempt: the plaintext of the reply.
  unfoldable pub once :
      Attempt → Text → Text → Option (Credential Key) → Bool → Client Pub → Exchange Pub Text
  unfolding active_key prepare decode_http_error open_response
  once attempt path raw cred refresh c =
      with_key attempt path raw cred (active_key suite attempt refresh c)

  abbrev has_code : Text → Option HttpError → Bool
  has_code code none = false
  has_code code (some he) = he.code == code

  abbrev pub key_unknown : Result Error Text → Bool
  key_unknown (ok pt) = false
  key_unknown (err e) = has_code code_hpke_key_unknown (as_http e)

  abbrev again :
      Attempt → Text → Text → Option (Credential Key) → Exchange Pub Text → Exchange Pub Text
  again attempt path raw cred first =
      let second = once attempt path raw cred true first.client in
      if key_unknown first.result
      then record second { requests = first.requests ++ second.requests }
      else first

  -- `call`, after proto.Marshal and before proto.Unmarshal.
  unfoldable pub call :
      Attempt → Attempt → Text → Text → Option (Credential Key) → Client Pub → Exchange Pub Text
  unfolding once as_http
  call first_attempt second_attempt path raw cred c =
      again second_attempt path raw cred (once first_attempt path raw cred false c)
