-- ===== src/Auth/Sealed/Conversation.antt =====
-- A request that one end seals is opened by the other, and so is the response.
use muthur_collector.Prelude.Separators.{IsFree, split_first, append_cancel}
use muthur_collector.Errors.{Error}
use muthur_collector.Prelude.{
  ℕ, ◌+◌, ◌≡◌, refl, ◌∙◌, some, false, ◌∷◌, ◌++◌, Text, text, arith, length, length-append,
  take-append, drop-append,
}
use muthur_collector.Prelude.Assoc.{lookup}
use muthur_collector.Prelude.Result.{Result, ok, err, bind-eq-ok, ◌>>=◌}
use muthur_collector.Auth.Crypto.{Hpke, IsHpke, Gcm, IsGcm, context, context-eq-ok}
use muthur_collector.Auth.Sealed.{
  sealed_version, hpke_enc_size, response_key_len, gcm_nonce_len, response_export_context,
  hpke_info, seal_aad, ill_framed, HpkeKeySet, seal_request, seal_with, open_request, open_with,
  new_gcm, seal_response, open_response, hpke_info_prefix,
}

ill_framed-envelope :
    (n : ℕ) (head rest : Text)
    → length head ≡ n
    → ill_framed (1 + n) (sealed_version ∷ (head ++ rest)) ≡ false
ill_framed-envelope n head rest h = let l = length-append head rest in ground arith

-- The two fallible steps of a sealed request after its context is there.
two_steps-eq-ok :
    (m₁ m₂ : Text) (sealed exported : Result Error Text) (frame : Text → Text) (body key : Text)
    → ◌>>=◌ {B = Text × Text}
        (context m₁ sealed)
        (λ ct. ◌>>=◌ {B = Text × Text} (context m₂ exported) (λ rk. ok (frame ct, rk)))
      ≡ ok (body, key)
    → (ct : Text) × (sealed ≡ ok ct) × (exported ≡ ok key) × (body ≡ frame ct)
two_steps-eq-ok m₁ m₂ (ok ct) (ok rk) frame body key e = (ct, refl, ground arith, ground arith)
two_steps-eq-ok m₁ m₂ (ok ct) (err x) frame body key e = cc
two_steps-eq-ok m₁ m₂ (err x) exported frame body key e = cc

module _ {Pub Priv Sender Recipient : Type 0} (h : Hpke Pub Priv Sender Recipient) where
  -- What a sealed request is made of.
  record IsSealed (random : Text) (pub_key : Pub) (path timestamp nonce plaintext body key : Text)
      : Type 0 where
    enc : Text
    sender : Sender
    ct : Text
    started : h.new_sender random pub_key (hpke_info path) ≡ ok (enc, sender)
    sealed : h.seal sender (seal_aad timestamp nonce) plaintext ≡ ok ct
    exported : h.sender_export sender response_export_context response_key_len ≡ ok key
    framed : body ≡ sealed_version ∷ (enc ++ ct)

  seal_request-IsSealed :
      (random : Text) (pub_key : Pub) (path timestamp nonce plaintext body key : Text)
      → seal_request h random pub_key path timestamp nonce plaintext ≡ ok (body, key)
      → IsSealed random pub_key path timestamp nonce plaintext body key
  unfolding seal_request
  seal_request-IsSealed random pub_key path timestamp nonce plaintext body key e =
      let ((enc, sender), started, e₁) =
        bind-eq-ok
          (context (text "auth: hpke sender") (h.new_sender random pub_key (hpke_info path)))
          (seal_with h timestamp nonce plaintext) e in
      let (ct, sealed, exported, framed) =
        two_steps-eq-ok (text "auth: hpke seal") (text "auth: hpke export")
          (h.seal sender (seal_aad timestamp nonce) plaintext)
          (h.sender_export sender response_export_context response_key_len)
          (λ c. sealed_version ∷ (enc ++ c)) body key e₁ in
      record {
        enc = enc;
        sender = sender;
        ct = ct;
        started =
            context-eq-ok (text "auth: hpke sender") (h.new_sender random pub_key (hpke_info path))
              started;
        sealed = sealed;
        exported = exported;
        framed = framed;
      }

  open_with-envelope :
      (path timestamp nonce enc ct : Text) (priv : Priv) (r : Recipient) (pt key : Text)
      → length enc ≡ hpke_enc_size
      → h.new_recipient enc priv (hpke_info path) ≡ ok r
      → h.unseal r (seal_aad timestamp nonce) ct ≡ ok pt
      → h.recipient_export r response_export_context response_key_len ≡ ok key
      → open_with h path timestamp nonce (sealed_version ∷ (enc ++ ct)) (some priv) ≡ ok (pt, key)
  open_with-envelope path timestamp nonce enc ct priv r pt key size started opened exported =
      rw
        (
          ill_framed-envelope hpke_enc_size enc ct size,
          take-append enc ct hpke_enc_size size,
          drop-append enc ct hpke_enc_size size,
          started,
          opened,
          exported,
        )
        refl

  -- With an HPKE whose two ends agree: the holder of the key that a request was sealed to opens it
  -- under the same path, timestamp and nonce, and gets the plaintext and the key for the response.
  pub open_request-seal_request :
      (ks : HpkeKeySet Priv) (kid : Text) (priv : Priv)
      (random path timestamp nonce plaintext body key : Text)
      → IsHpke h
      → lookup kid ks.keys ≡ some priv
      → seal_request h random (h.public_key priv) path timestamp nonce plaintext ≡ ok (body, key)
      → open_request h ks kid path timestamp nonce body ≡ ok (plaintext, key)
  unfolding open_request
  open_request-seal_request ks kid priv random path timestamp nonce plaintext body key law found e =
      let s =
        seal_request-IsSealed random (h.public_key priv) path timestamp nonce plaintext body key
          e in
      let (r, started, opens, exports) =
        law.agree random priv (hpke_info path) s.enc s.sender s.started in
      rw (found, s.framed)
        (open_with-envelope path timestamp nonce s.enc s.ct priv r plaintext key
          (law.enc_length random (h.public_key priv) (hpke_info path) s.enc s.sender s.started)
          started (opens (seal_aad timestamp nonce) plaintext s.ct s.sealed)
          (exports response_export_context response_key_len ∙ s.exported))

module _ {Block Aead : Type 0} (g : Gcm Block Aead) where
  -- A response that is sealed under a key, with a nonce of the right length, is opened by whoever holds
  -- that key.
  pub open_response-seal_response :
      (nonce key plaintext body : Text)
      → IsGcm g
      → length nonce ≡ gcm_nonce_len
      → seal_response g (ok nonce) key plaintext ≡ ok body
      → open_response g key body ≡ ok plaintext
  unfolding open_response seal_response
  open_response-seal_response nonce key plaintext body law size e =
      let (aead, started, e₁) =
        bind-eq-ok (new_gcm g key) (λ a. ok (sealed_version ∷ (nonce ++ g.seal a nonce plaintext)))
          e in
      let framed : body ≡ sealed_version ∷ (nonce ++ g.seal aead nonce plaintext) = ground arith in
      rw
        (
          framed,
          ill_framed-envelope gcm_nonce_len nonce (g.seal aead nonce plaintext) size,
          take-append nonce (g.seal aead nonce plaintext) gcm_nonce_len size,
          drop-append nonce (g.seal aead nonce plaintext) gcm_nonce_len size,
          started,
          law.unseal-seal aead nonce plaintext,
        )
        refl

-- What the ciphertext of a request is bound to, its info and its additional data, determines the path,
-- the timestamp and the nonce, since a timestamp holds no newline.
pub seal_binding-injective :
    (path path' timestamp timestamp' nonce nonce' : Text)
    → IsFree b'\n' timestamp
    → IsFree b'\n' timestamp'
    → hpke_info path ≡ hpke_info path'
    → seal_aad timestamp nonce ≡ seal_aad timestamp' nonce'
    → (path ≡ path') × (timestamp ≡ timestamp') × (nonce ≡ nonce')
unfolding hpke_info seal_aad
seal_binding-injective path path' timestamp timestamp' nonce nonce' h k info aad =
    let (t, n) = split_first b'\n' timestamp timestamp' nonce nonce' h k aad in
    (append_cancel hpke_info_prefix path path' info, t, n)
