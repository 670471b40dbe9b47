-- ===== src/Auth/Sealed.antt =====
-- internal/auth/sealed.go: the sealed envelope, from both ends, and the keys it is sealed to.
pub mod Conversation
pub mod Keys
pub mod Payload
use muthur_collector.Prelude.{
  ℕ, Bool, ◌||◌, not, Option, none, some, List, [], ◌∷◌, ◌++◌, Text, text, ◌==◌, nat_eq, bytes_eq,
  length, take, drop, ltb, if◌then◌else◌, true, ◌+◌,
}
use muthur_collector.Prelude.Assoc.{lookup}
use muthur_collector.Prelude.Result.{Result, ok, err, ◌>>=◌}
use muthur_collector.Errors.{Error, other}
use muthur_collector.Auth.Crypto.{Hpke, Gcm, context}

abbrev pub sealed_version : ℕ
sealed_version = 1

abbrev pub hpke_enc_size : ℕ
hpke_enc_size = 32

abbrev pub response_key_len : ℕ
response_key_len = 32

abbrev pub gcm_nonce_len : ℕ
gcm_nonce_len = 12

abbrev pub hpke_info_prefix : Text
hpke_info_prefix = text "muthur/v1 "

abbrev pub response_export_context : Text
response_export_context = text "muthur/v1 response"

-- ErrSealedMalformed and ErrUnknownHPKEKey
abbrev pub sealed_malformed : Error
sealed_malformed = other (text "auth: malformed sealed envelope")

abbrev pub unknown_hpke_key : Error
unknown_hpke_key = other (text "auth: unknown HPKE key id")

unfoldable pub hpke_info : Text → Text
hpke_info path = hpke_info_prefix ++ path

unfoldable pub seal_aad : Text → Text → Text
seal_aad timestamp nonce = timestamp ++ b'\n' ∷ nonce

-- len(body) < n || body[0] != SealedVersion
abbrev pub ill_framed : ℕ → Text → Bool
ill_framed n [] = true
ill_framed n (c ∷ body) = ltb (length (c ∷ body)) n || not (c == sealed_version)

-- Any error, as ErrSealedMalformed.
abbrev pub malformed_if_err : {A : Type 0} → Result Error A → Result Error A
malformed_if_err (ok a) = ok a
malformed_if_err (err e) = err sealed_malformed

-- The keys of HPKEKeySet, by their ids, and the ids in the order of the file.
pub record HpkeKeySet (Priv : Type 0) : Type 0 where
  pub order : List Text
  pub keys : List (Text × Priv)

module _ {Pub Priv Sender Recipient : Type 0} (h : Hpke Pub Priv Sender Recipient) where
  -- With the context of the request: its body and the key of the response.
  abbrev seal_with : Text → Text → Text → Text × Sender → Result Error (Text × Text)
  seal_with timestamp nonce plaintext (enc, sender) = do
    ct ← context (text "auth: hpke seal") (h.seal sender (seal_aad timestamp nonce) plaintext)
    rk ←
        context (text "auth: hpke export")
          (h.sender_export sender response_export_context response_key_len)
    ok (sealed_version ∷ (enc ++ ct), rk)

  -- SealRequest: the envelope, and the key of the opener.
  unfoldable pub seal_request : Text → Pub → Text → Text → Text → Text → Result Error (Text × Text)
  unfolding hpke_info seal_aad
  seal_request random pub_key path timestamp nonce plaintext = do
    start ← context (text "auth: hpke sender") (h.new_sender random pub_key (hpke_info path))
    seal_with timestamp nonce plaintext start

  -- OpenRequest with the key of the kid.
  abbrev open_with : Text → Text → Text → Text → Option Priv → Result Error (Text × Text)
  open_with path timestamp nonce body none = err unknown_hpke_key
  open_with path timestamp nonce body (some priv) =
      if ill_framed (1 + hpke_enc_size) body then err sealed_malformed else (do
        recipient ←
            malformed_if_err
              (h.new_recipient (take hpke_enc_size (drop 1 body)) priv (hpke_info path))
        pt ←
            malformed_if_err
              (h.unseal recipient (seal_aad timestamp nonce) (drop (1 + hpke_enc_size) body))
        rk ←
            context (text "auth: hpke export")
              (h.recipient_export recipient response_export_context response_key_len)
        ok (pt, rk))

  -- OpenRequest: the plaintext, and the key of the sealer.
  unfoldable pub open_request :
      HpkeKeySet Priv → Text → Text → Text → Text → Text → Result Error (Text × Text)
  unfolding hpke_info seal_aad
  open_request ks kid path timestamp nonce body =
      open_with path timestamp nonce body (lookup kid ks.keys)

module _ {Block Aead : Type 0} (g : Gcm Block Aead) where
  unfoldable pub new_gcm : Text → Result Error Aead
  new_gcm key = do
    block ← context (text "auth: response cipher") (g.new_cipher key)
    g.new_aead block

  -- ResponseSealer.Seal; `random` is what rand.Read gave, if it did not fail.
  unfoldable pub seal_response : Result Error Text → Text → Text → Result Error Text
  unfolding new_gcm
  seal_response random key plaintext = do
    aead ← new_gcm key
    nonce ← context (text "auth: response nonce") random
    ok (sealed_version ∷ (nonce ++ g.seal aead nonce plaintext))

  -- ResponseOpener.Open
  unfoldable pub open_response : Text → Text → Result Error Text
  unfolding new_gcm
  open_response key body = if ill_framed (1 + gcm_nonce_len) body then err sealed_malformed else (do
    aead ← new_gcm key
    malformed_if_err
        (g.unseal aead (take gcm_nonce_len (drop 1 body)) (drop (1 + gcm_nonce_len) body)))
