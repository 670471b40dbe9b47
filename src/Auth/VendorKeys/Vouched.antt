-- ===== src/Auth/VendorKeys/Vouched.antt =====
-- The keys that are fetched are vouched for by the vendor.
use mathlib.Core.Path.{subst}
use muthur_collector.Prelude.{
  ◌≡◌, refl, inl, inr, Bool, false, ◌||◌, Option, none, some, List, [], ◌∷◌, Text, text, ◌==◌,
  bytes_eq, text_eq_iff, Bool-cases,
}
use muthur_collector.Prelude.All.{All, All-append, Among}
use muthur_collector.Prelude.Int.{ℤ}
use muthur_collector.Prelude.Result.{Result, ok, err, bind-eq-ok, ◌>>=◌}
use muthur_collector.Errors.{Error}
use muthur_collector.Auth.Crypto.{context, context-eq-ok}
use muthur_collector.Auth.Sealed.Keys.{HpkePublicKey, hpke_key_id}
use muthur_collector.Auth.Transport.{Suite, Client, Attempt, KeysDocument, AdvertisedKey, ok_body}
use muthur_collector.Auth.VendorKeys.{
  with_id, parsed_key, usable_key, usable_keys, some_keys, verify_document, fetch_keys, first_key,
  store_keys, no_keys, is_stale, active_key,
}
use muthur_collector.Auth.VendorKeys.Trusted.{IsTrusted, verify_document-IsTrusted}

module _ {Pub Priv Sender Recipient Block Aead Key SigPub Cert : Type 0}
    (suite : Suite Pub Priv Sender Recipient Block Aead Key SigPub Cert) where
  -- An advertised key that the client can use: the suite is its own, and the id is that of the key.
  pub record IsUsable (entry : AdvertisedKey) (k : HpkePublicKey Pub) : Type 0 where
    pub kem : entry.kem ≡ text "dhkem-x25519-hkdf-sha256"
    pub kdf : entry.kdf ≡ text "hkdf-sha256"
    pub aead : entry.aead ≡ text "aes-256-gcm"
    pub kid : k.kid ≡ entry.kid
    pub id : hpke_key_id suite.hpke suite.prims.sha256 k.key ≡ k.kid

  -- A key that such a payload lists.
  pub record IsVouched (k : HpkePublicKey Pub) : Type 0 where
    pub payload : Text
    pub trusted : IsTrusted suite payload
    pub advertised : List AdvertisedKey
    pub decoded : suite.docs.decode_payload payload ≡ ok advertised
    pub entry : AdvertisedKey
    pub among : Among entry advertised
    pub usable : IsUsable entry k

  with_id-IsUsable :
      (entry : AdvertisedKey) (r : Result Error Pub)
      → entry.kem ≡ text "dhkem-x25519-hkdf-sha256"
      → entry.kdf ≡ text "hkdf-sha256"
      → entry.aead ≡ text "aes-256-gcm"
      → All (IsUsable entry) (with_id suite entry.kid r)
  with_id-IsUsable entry (err e) kem kdf aead = tt
  with_id-IsUsable entry (ok pub_key) kem kdf aead =
      elim (Bool-cases (hpke_key_id suite.hpke suite.prims.sha256 pub_key == entry.kid)) [
        | inr other ↦ rw other tt
        | inl same ↦ rw same (
          record {
            kem = kem;
            kdf = kdf;
            aead = aead;
            kid = refl;
            id = (text_eq_iff (hpke_key_id suite.hpke suite.prims.sha256 pub_key) entry.kid).0 same;
          },
          tt,
        )
      ]

  parsed_key-IsUsable :
      (entry : AdvertisedKey) (raw : Option Text)
      → entry.kem ≡ text "dhkem-x25519-hkdf-sha256"
      → entry.kdf ≡ text "hkdf-sha256"
      → entry.aead ≡ text "aes-256-gcm"
      → All (IsUsable entry) (parsed_key suite entry.kid raw)
  parsed_key-IsUsable entry none kem kdf aead = tt
  parsed_key-IsUsable entry (some raw) kem kdf aead =
      with_id-IsUsable entry (suite.hpke.parse_public raw) kem kdf aead

  usable_key-IsUsable : (entry : AdvertisedKey) → All (IsUsable entry) (usable_key suite entry)
  usable_key-IsUsable entry = elim (Bool-cases (entry.kem == text "dhkem-x25519-hkdf-sha256")) [
    | inr other ↦ rw other tt
    | inl kem ↦ elim (Bool-cases (entry.kdf == text "hkdf-sha256")) [
      | inr other ↦ rw (kem, other) tt
      | inl kdf ↦ elim (Bool-cases (entry.aead == text "aes-256-gcm")) [
        | inr other ↦ rw (kem, kdf, other) tt
        | inl aead ↦
            rw (kem, kdf, aead)
              (parsed_key-IsUsable entry (suite.prims.b64_decode entry.public_key)
                ((text_eq_iff entry.kem (text "dhkem-x25519-hkdf-sha256")).0 kem)
                ((text_eq_iff entry.kdf (text "hkdf-sha256")).0 kdf)
                ((text_eq_iff entry.aead (text "aes-256-gcm")).0 aead))
      ]
    ]
  ]

  All-map_of :
      {A : Type 0} (P Q : A → Type 0) (f : (a : A) → P a → Q a) (xs : List A) → All P xs → All Q xs
  All-map_of P Q f [] h = tt
  All-map_of P Q f (x ∷ xs) h = (f x h.0, All-map_of P Q f xs h.1)

  usable_keys-AllVouched :
      (payload : Text) (advertised : List AdvertisedKey)
      → IsTrusted suite payload
      → suite.docs.decode_payload payload ≡ ok advertised
      → (entries : List AdvertisedKey)
      → ((entry : AdvertisedKey) → Among entry entries → Among entry advertised)
      → All IsVouched (usable_keys suite entries)
  unfolding usable_keys
  usable_keys-AllVouched payload advertised t d [] within = tt
  usable_keys-AllVouched payload advertised t d (entry ∷ entries) within =
      All-append IsVouched (usable_key suite entry) (usable_keys suite entries)
        (All-map_of (IsUsable entry) IsVouched
          (λ k u. record {
            payload = payload;
            trusted = t;
            advertised = advertised;
            decoded = d;
            entry = entry;
            among = within entry (inl refl);
            usable = u;
          })
          (usable_key suite entry) (usable_key-IsUsable entry))
        (usable_keys-AllVouched payload advertised t d entries (λ x m. within x (inr m)))

  some_keys-eq-ok :
      (found keys : List (HpkePublicKey Pub))
      → some_keys suite found ≡ ok keys
      → (found ≡ keys) × (no_keys suite found ≡ false)
  some_keys-eq-ok [] keys e = cc
  some_keys-eq-ok (k ∷ found) keys e = (cc, refl)

  abbrev of_payload : Text → Result Error (List (HpkePublicKey Pub))
  of_payload payload =
      context (text "auth: brain keys: decode payload") (suite.docs.decode_payload payload)
      >>= (λ advertised. some_keys suite (usable_keys suite advertised))

  abbrev of_document : ℤ → KeysDocument → Result Error (List (HpkePublicKey Pub))
  of_document now doc = verify_document suite now doc >>= of_payload

  abbrev of_body : ℤ → Text → Result Error (List (HpkePublicKey Pub))
  of_body now body =
      context (text "auth: decode brain keys") (suite.docs.decode_document body) >>= of_document now

  fetch_keys-AllVouched :
      (attempt : Attempt) (keys : List (HpkePublicKey Pub))
      → fetch_keys suite attempt ≡ ok keys
      → All IsVouched keys × (no_keys suite keys ≡ false)
  unfolding fetch_keys
  fetch_keys-AllVouched attempt keys e =
      let (reply, _, e₁) =
        bind-eq-ok (context (text "auth: fetch brain keys") attempt.get_keys)
          (λ reply.
            ok_body suite (text "auth: read brain keys") reply >>= of_body attempt.verified_at)
          e in
      let (body, _, e₂) =
        bind-eq-ok (ok_body suite (text "auth: read brain keys") reply)
          (of_body attempt.verified_at) e₁ in
      let (doc, _, e₃) =
        bind-eq-ok (context (text "auth: decode brain keys") (suite.docs.decode_document body))
          (of_document attempt.verified_at) e₂ in
      let (payload, verified, e₄) =
        bind-eq-ok (verify_document suite attempt.verified_at doc) of_payload e₃ in
      let (advertised, decoded, e₅) =
        bind-eq-ok
          (context (text "auth: brain keys: decode payload") (suite.docs.decode_payload payload))
          (λ advertised. some_keys suite (usable_keys suite advertised)) e₄ in
      let (same, there) = some_keys-eq-ok (usable_keys suite advertised) keys e₅ in
      (
        subst (All IsVouched) same (
            usable_keys-AllVouched payload advertised
              (verify_document-IsTrusted suite attempt.verified_at doc payload verified)
              (context-eq-ok _ (suite.docs.decode_payload payload) decoded) advertised (λ x m. m)),
        rw same at there,
      )

  abbrev pub IsVouchedResult : Result Error (HpkePublicKey Pub) × Client Pub → Type 0
  IsVouchedResult (ok k, c) = IsVouched k × All IsVouched c.keys
  IsVouchedResult (err e, c) = All IsVouched c.keys

  first_key-IsVouched :
      (keys : List (HpkePublicKey Pub)) (fetched : ℤ)
      → All IsVouched keys
      → IsVouchedResult (first_key suite (record { keys = keys; fetched = fetched }))
  first_key-IsVouched [] fetched v = v
  first_key-IsVouched (k ∷ keys) fetched v = (v.0, v)

  store_keys-IsVouched :
      (attempt : Attempt) (c : Client Pub) (r : Result Error (List (HpkePublicKey Pub)))
      → ((keys : List (HpkePublicKey Pub)) → r ≡ ok keys → All IsVouched keys)
      → All IsVouched c.keys
      → IsVouchedResult (store_keys suite attempt c r)
  store_keys-IsVouched attempt c (err e) fresh v = v
  store_keys-IsVouched attempt c (ok keys) fresh v =
      first_key-IsVouched keys attempt.fetched_at (fresh keys refl)

  pub active_key-IsVouched :
      (attempt : Attempt) (refresh : Bool) (c : Client Pub)
      → All IsVouched c.keys
      → IsVouchedResult (active_key suite attempt refresh c)
  unfolding active_key
  active_key-IsVouched attempt refresh c v =
      elim (Bool-cases (refresh || no_keys suite c.keys || is_stale attempt.checked_at c.fetched)) [
        | inl fetches ↦ rw fetches (
            store_keys-IsVouched attempt c (fetch_keys suite attempt)
              (λ keys e. (fetch_keys-AllVouched attempt keys e).0) v)
        | inr cached ↦ rw cached (first_key-IsVouched c.keys c.fetched v)
      ]
