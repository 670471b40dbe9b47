-- ===== src/Auth/Crypto.antt =====
-- What internal/auth calls of crypto/hpke, crypto/aes, crypto/ecdsa, crypto/x509 and encoding/pem. The
-- suite is fixed (X25519, HKDF-SHA256, AES-256-GCM), so no call names it; a call that draws random
-- bytes takes them as an argument.
use muthur_collector.Prelude.{ℕ, ◌≡◌, Text, length}
use muthur_collector.Prelude.Result.{Result, ok, err}
use muthur_collector.Errors.{Error, wrap}

-- fmt.Errorf("message: %w", err)
abbrev pub context : {A : Type 0} → Text → Result Error A → Result Error A
context message (ok a) = ok a
context message (err e) = err (wrap message e)

pub record Hpke (Pub Priv Sender Recipient : Type 0) : Type 0 where
  pub public_bytes : Pub → Text
  pub public_key : Priv → Pub
  -- KEM.NewPublicKey
  pub parse_public : Text → Result Error Pub
  -- NewSender, from random bytes, a key and the info: the encapsulated key and the context
  pub new_sender : Text → Pub → Text → Result Error (Text × Sender)
  -- Sender.Seal, of additional data and a plaintext
  pub seal : Sender → Text → Text → Result Error Text
  pub sender_export : Sender → Text → ℕ → Result Error Text
  -- NewRecipient, of an encapsulated key, a key and the info
  pub new_recipient : Text → Priv → Text → Result Error Recipient
  -- Recipient.Open
  pub unseal : Recipient → Text → Text → Result Error Text
  pub recipient_export : Recipient → Text → ℕ → Result Error Text

-- The two ends of a context agree, and an encapsulated X25519 key has 32 bytes.
pub record IsHpke {Pub Priv Sender Recipient : Type 0} (h : Hpke Pub Priv Sender Recipient)
    : Type 0 where
  pub enc_length :
      (random : Text) (pub_key : Pub) (info enc : Text) (s : Sender)
      → h.new_sender random pub_key info ≡ ok (enc, s)
      → length enc ≡ 32
  pub agree :
      (random : Text) (priv : Priv) (info enc : Text) (s : Sender)
      → h.new_sender random (h.public_key priv) info ≡ ok (enc, s)
      → (r : Recipient) × (h.new_recipient enc priv info ≡ ok r)
        × ((aad pt ct : Text) → h.seal s aad pt ≡ ok ct → h.unseal r aad ct ≡ ok pt)
        × ((label : Text) (n : ℕ) → h.recipient_export r label n ≡ h.sender_export s label n)

pub record Gcm (Block Aead : Type 0) : Type 0 where
  -- aes.NewCipher and cipher.NewGCM
  pub new_cipher : Text → Result Error Block
  pub new_aead : Block → Result Error Aead
  -- Aead.Seal and Aead.Open, of a nonce and a text, with no additional data
  pub seal : Aead → Text → Text → Text
  pub unseal : Aead → Text → Text → Result Error Text

pub record IsGcm {Block Aead : Type 0} (g : Gcm Block Aead) : Type 0 where
  pub unseal-seal : (a : Aead) (nonce pt : Text) → g.unseal a nonce (g.seal a nonce pt) ≡ ok pt

pub context-eq-ok :
    {A : Type 0} (message : Text) (r : Result Error A) {a : A} → context message r ≡ ok a → r ≡ ok a
context-eq-ok message (ok a) h = h
context-eq-ok message (err e) h = cc
