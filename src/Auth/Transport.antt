-- ===== src/Auth/Transport.antt =====
-- internal/auth/signedclient.go: the data of the signed transport and the reading of a reply. What one
-- attempt of a call meets outside (the clock, the random bytes, the replies of the edge) is the record
-- `Attempt`; JSON, X.509 and base64 are the record `Documents`.
use muthur_collector.Prelude.{
  ℕ, ◌*◌, Option, none, some, List, [], ◌++◌, Text, text, decimal, ◌==◌, nat_eq, bytes_eq,
  if◌then◌else◌,
}
use muthur_collector.Prelude.Int.{ℤ}
use muthur_collector.Prelude.Result.{Result, ok, err, ◌>>=◌}
use muthur_collector.Prelude.Strings.{trim_space}
use muthur_collector.Errors.{HttpError, Error, http}
use muthur_collector.Auth.Crypto.{Hpke, Gcm, context}
use muthur_collector.Auth.HttpSig.{Primitives}
use muthur_collector.Auth.SignatureBase.{Header}
use muthur_collector.Auth.Sealed.Payload.{Verifiers}
use muthur_collector.Auth.Sealed.Keys.{HpkePublicKey}

abbrev pub signed_path_bootstrap : Text
signed_path_bootstrap = text "/muthur/v1/bootstrap"

abbrev pub signed_path_ingest : Text
signed_path_ingest = text "/muthur/v1/ingest"

abbrev pub signed_path_sign_csr : Text
signed_path_sign_csr = text "/muthur/v1/sign-csr"

abbrev pub code_hpke_key_unknown : Text
code_hpke_key_unknown = text "hpke_key_unknown"

-- 24 hours, in nanoseconds
abbrev pub signed_keys_ttl : ℕ
signed_keys_ttl = 24 * 3600 * 1_000_000_000

abbrev pub sealed_content_type : Text
sealed_content_type = text "application/vnd.muthur.sealed"

-- A status, and the body or the error of reading it.
pub record HttpReply : Type 0 where
  pub status : ℕ
  pub body : Result Error Text

-- One POST.
pub record Sent : Type 0 where
  pub path : Text
  pub header : Header
  pub body : Text

-- The times are nanoseconds, but for `created`, the seconds of Unix time; each is what one call of
-- now() gave.
pub record Attempt : Type 0 where
  pub checked_at : ℤ
  pub verified_at : ℤ
  pub fetched_at : ℤ
  pub created : ℤ
  pub nonce : Text
  pub seal_random : Text
  pub sign_random : Text
  -- the GET of the keys, and a POST; a reply is read up to its limit
  pub get_keys : Result Error HttpReply
  pub post : Sent → Result Error HttpReply

-- keysDocument, and an entry of keysPayload
pub record KeysDocument : Type 0 where
  pub payload : Text
  pub signature : Text
  pub signer : Text

pub record AdvertisedKey : Type 0 where
  pub kid : Text
  pub kem : Text
  pub kdf : Text
  pub aead : Text
  pub public_key : Text

pub record Documents (Cert : Type 0) : Type 0 where
  pub decode_document : Text → Result Error KeysDocument
  pub decode_payload : Text → Result Error (List AdvertisedKey)
  -- the fields `error` and `message` of an error body
  pub decode_error : Text → Option (Text × Text)
  pub parse_certificate : Text → Result Error Cert
  -- signer.Verify against the vendor roots at a time; `none` is success
  pub chain_error : ℤ → Cert → Option Error
  -- what VerifyPayload needs of a certificate
  pub verifiers : Verifiers Cert

-- tls.Certificate: the chain, and the private key if it is an ECDSA key
pub record Credential (Key : Type 0) : Type 0 where
  pub chain : List Text
  pub private_key : Option Key

-- What the client calls, as one argument.
pub record Suite (Pub Priv Sender Recipient Block Aead Key SigPub Cert : Type 0) : Type 0 where
  pub hpke : Hpke Pub Priv Sender Recipient
  pub gcm : Gcm Block Aead
  pub prims : Primitives Key SigPub
  pub docs : Documents Cert

-- The mutable part of SignedClient.
pub record Client (Pub : Type 0) : Type 0 where
  pub keys : List (HpkePublicKey Pub)
  pub fetched : ℤ

-- The result of an exchange, the requests it made and the client after it.
pub record Exchange (Pub A : Type 0) : Type 0 where
  pub result : Result Error A
  pub requests : List Sent
  pub client : Client Pub

module _ {Pub Priv Sender Recipient Block Aead Key SigPub Cert : Type 0}
    (suite : Suite Pub Priv Sender Recipient Block Aead Key SigPub Cert) where
  abbrev pub error_body : ℕ → Text → Option (Text × Text) → HttpError
  error_body status body none = record {
    status = status;
    code = text "http_" ++ decimal status;
    message = trim_space body;
  }
  error_body status body (some (code, message)) =
      if code == []
      then record {
        status = status;
        code = text "http_" ++ decimal status;
        message = trim_space body;
      }
      else record { status = status; code = code; message = message }

  unfoldable pub decode_http_error : ℕ → Text → Error
  unfolding trim_space
  decode_http_error status body = http (error_body status body (suite.docs.decode_error body))

  -- The body of a reply; `message` is for a body that cannot be read.
  abbrev pub ok_body : Text → HttpReply → Result Error Text
  ok_body message reply = do
    body ← context message reply.body
    if reply.status == 200 then ok body else err (decode_http_error reply.status body)
