-- ===== src/Auth/HttpSig/RoundTrip.antt =====
-- A request that was signed verifies.
use muthur_collector.Prelude.{
  ℕ, ◌<◌, ◌^◌, ◌≡◌, refl, true, some, [], ◌∷◌, ◌++◌, Text, text, text_eq, nat_eq, bytes_eq, arith,
  length, length-append, take-append, drop-append, Bool-cases, sym, inl, inr, ◌∙◌, ◌≤◌, ◌+◌,
}
use muthur_collector.Prelude.Hex.{hex}
use muthur_collector.Prelude.Int.{ℤ, pos_part, neg_part}
use muthur_collector.Prelude.Numbers.{
  fill_bytes, length-fill_bytes, set_bytes-fill_bytes, format_int, max_int64,
}
use muthur_collector.Prelude.Quote.{quote, escape_all}
use muthur_collector.Prelude.Result.{ok, Result-cases}
use muthur_collector.Prelude.Strings.{is_space, trim_space, cut_prefix}
use muthur_collector.Prelude.Strings.Laws.{Ends, Ends-append, trim_space-Ends, cut_last-append}
use muthur_collector.Auth.HttpSig.{
  Primitives, cert_key_id, parse_signature_params, of_64_bytes, verify_headers, verify_request,
  sign_request, with_signature,
}
use muthur_collector.Auth.SignatureBase.{
  Header, header_get, header_set, header_signature, header_signature_input, signature_label,
  signature_alg, signed_components, component_list, signature_params, signature_base,
}
use muthur_collector.Auth.HttpSig.Params.{IsBytes, parse_signature_params-signature_params}

-- What is asked of the primitives: a key and its public half fit, the encodings are undone, and a
-- digest is made of bytes.
pub record IsSound {Key Pub : Type 0} (p : Primitives Key Pub) (public : Key → Pub) : Type 0 where
  pub p256 : (key : Key) → p.key_is_p256 key ≡ true → p.pub_is_p256 (public key) ≡ true
  pub verifies :
      (random : Text) (key : Key) (digest : Text) (r s : ℕ)
      → p.sign random key digest ≡ ok (r, s)
      → (p.verify (public key) digest r s ≡ true) × (r < 256 ^ 32) × (s < 256 ^ 32)
  pub decodes : (s : Text) → p.b64_decode (p.b64_encode s) ≡ some s
  pub digest_bytes : (s : Text) → IsBytes (p.sha256 s)
  pub unquotes : (s : Text) → IsBytes s → p.unquote (quote (hex s)) ≡ some (hex s)

Ends-signature_params : (created : ℤ) (key_id : Text) → Ends b'"' (signature_params created key_id)
unfolding signature_params quote
Ends-signature_params created key_id =
    Ends-append b'"' (b'(' ∷ component_list signed_components) _ (
      Ends-append b'"' (text ");created=") _ (
        Ends-append b'"' (format_int created) _ (
          Ends-append b'"' (text ";alg=") _ (
            Ends-append b'"' (quote signature_alg) _ (
              Ends-append b'"' (text ";keyid=") (quote key_id) (b'"' ∷ escape_all key_id, refl))))))

-- The headers of a signature, and what they leave alone.
module _ (h : Header) (v w : Text) where
  abbrev pub signed : Header
  signed = header_set header_signature v (header_set header_signature_input w h)

  signed-signature : header_get signed header_signature ≡ v
  unfolding header_get header_set text_eq
  signed-signature = refl

  signed-signature_input : header_get signed header_signature_input ≡ w
  unfolding header_get header_set text_eq
  signed-signature_input = refl

  signed-signature_base :
      (method path params : Text)
      → signature_base method path signed params ≡ signature_base method path h params
  unfolding signature_base header_get header_set text_eq
  signed-signature_base method path params = refl

of_64_bytes-fill :
    {Key Pub : Type 0} (p : Primitives Key Pub) (r s : ℕ)
    → of_64_bytes p (fill_bytes 32 r ++ fill_bytes 32 s) ≡ ok (fill_bytes 32 r ++ fill_bytes 32 s)
of_64_bytes-fill p r s =
    let size : length (fill_bytes 32 r ++ fill_bytes 32 s) ≡ 64 = omega (
      arith,
      length-append (fill_bytes 32 r) (fill_bytes 32 s),
      length-fill_bytes 32 r,
      length-fill_bytes 32 s,
    ) in
    rw size refl

module _ {Key Pub : Type 0} (p : Primitives Key Pub) (public : Key → Pub)
    (sound : IsSound p public) where
  abbrev pub signature_text : ℕ → ℕ → Text
  signature_text r s =
      signature_label
      ++ (text "=:" ++ (p.b64_encode (fill_bytes 32 r ++ fill_bytes 32 s) ++ b':' ∷ []))

  trim-signature_text : (r s : ℕ) → trim_space (signature_text r s) ≡ signature_text r s
  unfolding is_space
  trim-signature_text r s =
      trim_space-Ends b's'
        (text "ig1=:" ++ (p.b64_encode (fill_bytes 32 r ++ fill_bytes 32 s) ++ b':' ∷ [])) b':' refl
        refl
        (Ends-append b':' (text "ig1=:") _
          (p.b64_encode (fill_bytes 32 r ++ fill_bytes 32 s), refl))

  trim-input :
      (created : ℤ) (key_id : Text)
      → let input = signature_label ++ (text "=" ++ signature_params created key_id) in
        trim_space input ≡ input
  unfolding is_space
  trim-input created key_id =
      trim_space-Ends b's' (text "ig1=" ++ signature_params created key_id) b'"' refl refl
        (Ends-append b'"' (text "ig1=") _ (Ends-signature_params created key_id))

  verify_headers-signed :
      (random method path : Text) (h : Header) (key : Key) (created : ℤ) (leaf_der : Text) (r s : ℕ)
      → p.sign random key (
          p.sha256
            (signature_base method path h (signature_params created (cert_key_id p leaf_der))))
        ≡ ok (r, s)
      → parse_signature_params p (signature_params created (cert_key_id p leaf_der))
        ≡ ok (record { created = created; key_id = cert_key_id p leaf_der })
      → verify_headers p method path h
          (public key)
          (signature_label ++ (text "=" ++ signature_params created (cert_key_id p leaf_der)))
          (signature_text r s)
        ≡ ok (record { created = created; key_id = cert_key_id p leaf_der })
  unfolding cut_prefix
  verify_headers-signed random method path h key created leaf_der r s made parsed =
      let (valid, r_fits, s_fits) = sound.verifies random key _ r s made in
      rw
        (
          parsed,
          cut_last-append b':' (p.b64_encode (fill_bytes 32 r ++ fill_bytes 32 s)),
          sound.decodes (fill_bytes 32 r ++ fill_bytes 32 s),
          of_64_bytes-fill p r s,
          take-append (fill_bytes 32 r) (fill_bytes 32 s) 32 (length-fill_bytes 32 r),
          drop-append (fill_bytes 32 r) (fill_bytes 32 s) 32 (length-fill_bytes 32 r),
          set_bytes-fill_bytes 32 r r_fits,
          set_bytes-fill_bytes 32 s s_fits,
          valid,
        )
        refl

  verify_request-signed :
      (method path : Text) (h : Header) (key : Key) (params : Text) (r s : ℕ)
      → p.key_is_p256 key ≡ true
      → trim_space (signature_label ++ (text "=" ++ params))
        ≡ signature_label ++ (text "=" ++ params)
      → verify_request p method path
          (signed h (signature_text r s) (signature_label ++ (text "=" ++ params)))
          (some (public key))
        ≡ verify_headers p method path
            (signed h (signature_text r s) (signature_label ++ (text "=" ++ params)))
            (public key)
            (signature_label ++ (text "=" ++ params))
            (signature_text r s)
  unfolding verify_request text_eq
  verify_request-signed method path h key params r s curve trimmed =
      let input = signature_label ++ (text "=" ++ params) in
      rw
        (
          sound.p256 key curve,
          signed-signature_input h (signature_text r s) input,
          signed-signature h (signature_text r s) input,
          trimmed,
          trim-signature_text r s,
        )
        refl

  verify_headers-signed_base :
      (method path : Text) (h : Header) (v w input sig_text : Text) (pub_key : Pub)
      → verify_headers p method path (signed h v w) pub_key input sig_text
        ≡ verify_headers p method path h pub_key input sig_text
  unfolding signature_base header_get header_set text_eq
  verify_headers-signed_base method path h v w input sig_text pub_key = refl

  -- What SignRequest did, where it returned headers.
  pub sign_request-eq-ok :
      (random method path : Text) (h h' : Header) (key : Key) (leaf_der : Text) (created : ℤ)
      → sign_request p random h method path (some key) leaf_der created ≡ ok h'
      → let params = signature_params created (cert_key_id p leaf_der) in
        (r : ℕ) × (s : ℕ) × (p.key_is_p256 key ≡ true)
        × (p.sign random key (p.sha256 (signature_base method path h params)) ≡ ok (r, s))
        × (h' ≡ signed h (signature_text r s) (signature_label ++ (text "=" ++ params)))
  unfolding sign_request
  sign_request-eq-ok random method path h h' key leaf_der created e =
      let params = signature_params created (cert_key_id p leaf_der) in
      elim (Bool-cases (p.key_is_p256 key)) [
        | inr other ↦ cc (rw other at e)
        | inl curve ↦
            let e₁ : with_signature p h params
                  (p.sign random key (p.sha256 (signature_base method path h params)))
                ≡ ok h' =
              rw curve at e in
            elim (Result-cases
              (p.sign random key (p.sha256 (signature_base method path h params)))) [
                | inr (x, failed) ↦ cc (rw failed at e₁)
                | inl ((r, s), made) ↦
                    let same : signed h (signature_text r s)
                          (signature_label ++ (text "=" ++ params))
                        ≡ h' =
                      cc (rw made at e₁) in
                    (r, s, curve, made, sym same)
              ]
      ]

-- With primitives that are sound, the headers that SignRequest returns verify under the public half of
-- the key, for the same method and path, and VerifyRequest reports the time and the certificate that
-- were signed.
pub verify_request-sign_request :
    {Key Pub : Type 0} (p : Primitives Key Pub) (public : Key → Pub) (random method path : Text)
    (h h' : Header) (key : Key) (leaf_der : Text) (created : ℤ)
    → IsSound p public
    → pos_part created ≤ max_int64
    → neg_part created ≤ max_int64 + 1
    → sign_request p random h method path (some key) leaf_der created ≡ ok h'
    → verify_request p method path h' (some (public key))
      ≡ ok (record { created = created; key_id = cert_key_id p leaf_der })
unfolding cert_key_id
verify_request-sign_request p public random method path h h' key leaf_der created sound above below
      e =
    let params = signature_params created (cert_key_id p leaf_der) in
    let (r, s, curve, made, same) =
      sign_request-eq-ok p public sound random method path h h' key leaf_der created e in
    let parsed =
      parse_signature_params-signature_params p created (p.sha256 leaf_der) above below
        (sound.digest_bytes leaf_der)
        (sound.unquotes (p.sha256 leaf_der) (sound.digest_bytes leaf_der)) in
    rw same (
      verify_request-signed p public sound method path h key params r s curve
        (trim-input p public sound created (cert_key_id p leaf_der))
      ∙ verify_headers-signed_base p public sound method path h (signature_text p public sound r s)
          (signature_label ++ (text "=" ++ params)) (signature_label ++ (text "=" ++ params))
          (signature_text p public sound r s) (public key)
      ∙ verify_headers-signed p public sound random method path h key created leaf_der r s made
          parsed)
