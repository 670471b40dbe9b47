-- ===== src/Auth/Sealed/Payload.antt =====
-- SignPayload and VerifyPayload of internal/auth/sealed.go: the algorithm that the type of a key implies.
use muthur_collector.Prelude.{ap, refl, ◌≡◌, Option, none, some, Text, text}
use muthur_collector.Prelude.Result.{Result, ok, err}
use muthur_collector.Errors.{Error, other}

-- The type of a public key.
pub data KeyKind : Type 0 where
  ecdsa rsa ed25519 other_kind : KeyKind

-- x509.SignatureAlgorithm, and the hash that crypto.Signer is told of.
pub data Algorithm : Type 0 where
  ecdsa_with_sha256 sha256_with_rsa pure_ed25519 : Algorithm

pub data Hash : Type 0 where
  sha256_hash no_hash : Hash

pub record Signers (Signer : Type 0) : Type 0 where
  pub signer_kind : Signer → KeyKind
  pub sha256 : Text → Text
  -- Signer.Sign, from random bytes
  pub sign : Text → Signer → Text → Hash → Result Error Text

pub record Verifiers (Cert : Type 0) : Type 0 where
  pub cert_kind : Cert → KeyKind
  -- Certificate.CheckSignature, of a payload and a signature; `none` is success
  pub check_signature : Algorithm → Cert → Text → Text → Option Error

abbrev pub unsupported_key : Error
unsupported_key = other (text "auth: unsupported signer key")

module _ {Signer : Type 0} (s : Signers Signer) where
  abbrev sign_as : KeyKind → Text → Signer → Text → Result Error Text
  sign_as ecdsa random signer payload = s.sign random signer (s.sha256 payload) sha256_hash
  sign_as rsa random signer payload = s.sign random signer (s.sha256 payload) sha256_hash
  sign_as ed25519 random signer payload = s.sign random signer payload no_hash
  sign_as other_kind random signer payload = err unsupported_key

  unfoldable pub sign_payload : Text → Signer → Text → Result Error Text
  sign_payload random signer payload = sign_as (s.signer_kind signer) random signer payload

-- The algorithm of a type of key, if it has one.
abbrev pub algorithm_of : KeyKind → Option Algorithm
algorithm_of ecdsa = some ecdsa_with_sha256
algorithm_of rsa = some sha256_with_rsa
algorithm_of ed25519 = some pure_ed25519
algorithm_of other_kind = none

module _ {Cert : Type 0} (v : Verifiers Cert) where
  abbrev verify_by : Option Algorithm → Cert → Text → Text → Option Error
  verify_by none cert payload sig = some unsupported_key
  verify_by (some algo) cert payload sig = v.check_signature algo cert payload sig

  unfoldable pub verify_payload : Cert → Text → Text → Option Error
  verify_payload cert payload sig = verify_by (algorithm_of (v.cert_kind cert)) cert payload sig

-- What an algorithm signs of a payload, and the hash it is told of.
abbrev pub signed_part : {Signer : Type 0} → Signers Signer → Algorithm → Text → Text × Hash
signed_part s ecdsa_with_sha256 payload = (s.sha256 payload, sha256_hash)
signed_part s sha256_with_rsa payload = (s.sha256 payload, sha256_hash)
signed_part s pure_ed25519 payload = (payload, no_hash)

-- A signer and a certificate of its public key: the algorithm of the key accepts what the key signs.
pub record IsPair {Signer Cert : Type 0} (s : Signers Signer) (v : Verifiers Cert) (signer : Signer)
    (cert : Cert) : Type 0 where
  pub same_kind : v.cert_kind cert ≡ s.signer_kind signer
  pub checks :
      (a : Algorithm) (random payload sig : Text)
      → algorithm_of (s.signer_kind signer) ≡ some a
      → s.sign random signer (signed_part s a payload).0 (signed_part s a payload).1 ≡ ok sig
      → v.check_signature a cert payload sig ≡ none

verify_by-sign_as :
    {Signer Cert : Type 0} (s : Signers Signer) (v : Verifiers Cert) (signer : Signer) (cert : Cert)
    (kind : KeyKind) (random payload sig : Text)
    → s.signer_kind signer ≡ kind
    → IsPair s v signer cert
    → sign_as s kind random signer payload ≡ ok sig
    → verify_by v (algorithm_of kind) cert payload sig ≡ none
verify_by-sign_as s v signer cert ecdsa random payload sig e law made =
    law.checks ecdsa_with_sha256 random payload sig (ap algorithm_of e) made
verify_by-sign_as s v signer cert rsa random payload sig e law made =
    law.checks sha256_with_rsa random payload sig (ap algorithm_of e) made
verify_by-sign_as s v signer cert ed25519 random payload sig e law made =
    law.checks pure_ed25519 random payload sig (ap algorithm_of e) made
verify_by-sign_as s v signer cert other_kind random payload sig e law made = cc

-- What SignPayload signs with a key is accepted by VerifyPayload under the certificate of that key.
pub verify_payload-sign_payload :
    {Signer Cert : Type 0} (s : Signers Signer) (v : Verifiers Cert) (signer : Signer) (cert : Cert)
    (random payload sig : Text)
    → IsPair s v signer cert
    → sign_payload s random signer payload ≡ ok sig
    → verify_payload v cert payload sig ≡ none
unfolding sign_payload verify_payload
verify_payload-sign_payload s v signer cert random payload sig law made =
    rw (law.same_kind)
      (verify_by-sign_as s v signer cert (s.signer_kind signer) random payload sig refl law made)
