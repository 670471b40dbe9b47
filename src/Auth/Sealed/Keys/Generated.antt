-- ===== src/Auth/Sealed/Keys/Generated.antt =====
-- GenerateHPKEKeyPEM of internal/auth/sealed.go, and that the parser reads its key.
use muthur_collector.Prelude.{
  ℕ, suc, ◌≡◌, refl, ap, ◌∙◌, none, some, [], ◌∷◌, Text, text, text_eq, length,
}
use muthur_collector.Prelude.Assoc.{lookup}
use muthur_collector.Prelude.Result.{Result, ok, bind-eq-ok, ◌>>=◌}
use muthur_collector.Errors.{Error}
use muthur_collector.Auth.Crypto.{Hpke}
use muthur_collector.Auth.Sealed.{HpkeKeySet}
use muthur_collector.Auth.Sealed.Keys.WellFormed.{parse_blocks-end, parse_blocks-next}
use muthur_collector.Auth.Sealed.Keys.{
  PemBlock, Parsers, hpke_key_id, add_block, parse_blocks, parse_hpke_keys,
}

pub record Generator (Raw : Type 0) : Type 0 where
  -- ecdh.X25519().GenerateKey, from random bytes
  pub generate_key : Text → Result Error Raw
  -- x509.MarshalPKCS8PrivateKey and pem.EncodeToMemory
  pub marshal_pkcs8 : Raw → Result Error Text
  pub encode : PemBlock → Text

abbrev pub private_block : Text → PemBlock
private_block der = record { block_type = text "PRIVATE KEY"; bytes = der }

unfoldable pub generate_hpke_key_pem : {Raw : Type 0} → Generator Raw → Text → Result Error Text
generate_hpke_key_pem gen random = do
  priv ← gen.generate_key random
  der ← gen.marshal_pkcs8 priv
  ok (gen.encode (private_block der))

-- What was encoded is decoded.
pub record IsInverse {Raw Priv : Type 0} (gen : Generator Raw) (parsers : Parsers Raw Priv)
    : Type 0 where
  pub decode_nil : parsers.decode [] ≡ none
  pub decode_encode : (b : PemBlock) → parsers.decode (gen.encode b) ≡ some (b, [])
  pub parse_marshal :
      (raw : Raw) (der : Text)
      → gen.marshal_pkcs8 raw ≡ ok der
      → parsers.parse_pkcs8 der ≡ ok (some raw)

module _ {Pub Priv Sender Recipient Raw : Type 0} (h : Hpke Pub Priv Sender Recipient)
    (sha256 : Text → Text) (gen : Generator Raw) (parsers : Parsers Raw Priv) where
  abbrev pub one_key : Priv → HpkeKeySet Priv
  one_key key =
      let kid = hpke_key_id h sha256 (h.public_key key) in
      record { order = kid ∷ []; keys = (kid, key) ∷ [] }

  module _ (law : IsInverse gen parsers) where
    add_block-private_block :
        (raw : Raw) (key : Priv) (der : Text)
        → parsers.parse_pkcs8 der ≡ ok (some raw)
        → parsers.wrap_key raw ≡ ok key
        → add_block h sha256 parsers (private_block der) (record { order = []; keys = [] })
          ≡ ok (one_key key)
    unfolding add_block lookup text_eq
    add_block-private_block raw key der parsed wrapped = rw (parsed, wrapped) refl

    parse_blocks-encode :
        (n : ℕ) (raw : Raw) (key : Priv) (der : Text)
        → parsers.parse_pkcs8 der ≡ ok (some raw)
        → parsers.wrap_key raw ≡ ok key
        → parse_blocks h sha256 parsers
            (suc (suc n))
            (gen.encode (private_block der))
            (record { order = []; keys = [] })
          ≡ some (ok (one_key key))
    parse_blocks-encode n raw key der parsed wrapped =
        parse_blocks-next h sha256 parsers (suc n) (gen.encode (private_block der))
          (record { order = []; keys = [] }) (private_block der) [] (one_key key)
          (law.decode_encode (private_block der))
          (add_block-private_block raw key der parsed wrapped)
        ∙ parse_blocks-end h sha256 parsers n [] (one_key key) law.decode_nil

    positive :
        (der : Text) (pem : Text)
        → gen.encode (private_block der) ≡ pem
        → (n : ℕ) × (length pem ≡ suc n)
    positive der [] e =
        cc (law.decode_encode (private_block der), law.decode_nil, ap parsers.decode e)
    positive der (c ∷ pem) e = (length pem, refl)

    parse_hpke_keys-encode :
        (raw : Raw) (key : Priv) (der : Text)
        → parsers.parse_pkcs8 der ≡ ok (some raw)
        → parsers.wrap_key raw ≡ ok key
        → parse_hpke_keys h sha256 parsers (gen.encode (private_block der))
          ≡ some (ok (one_key key))
    unfolding parse_hpke_keys
    parse_hpke_keys-encode raw key der parsed wrapped =
        let (n, size) = positive der (gen.encode (private_block der)) refl in
        rw (size, parse_blocks-encode n raw key der parsed wrapped) refl

-- Where PEM and PKCS#8 undo their encodings, a generated key file is parsed to the key set that holds
-- the generated key alone, under the id of its public half.
pub parse_hpke_keys-generate_hpke_key_pem :
    {Pub Priv Sender Recipient Raw : Type 0} (h : Hpke Pub Priv Sender Recipient)
    (sha256 : Text → Text) (gen : Generator Raw) (parsers : Parsers Raw Priv) (random pem : Text)
    → IsInverse gen parsers
    → ((raw : Raw) → (key : Priv) × (parsers.wrap_key raw ≡ ok key))
    → generate_hpke_key_pem gen random ≡ ok pem
    → (raw : Raw) × (key : Priv) × (gen.generate_key random ≡ ok raw)
      × (parsers.wrap_key raw ≡ ok key)
      × (parse_hpke_keys h sha256 parsers pem ≡ some (ok (one_key h sha256 gen parsers key)))
unfolding generate_hpke_key_pem
parse_hpke_keys-generate_hpke_key_pem h sha256 gen parsers random pem law wraps e =
    let (raw, made, e₁) =
      bind-eq-ok {B = Text} (gen.generate_key random)
        (λ priv. gen.marshal_pkcs8 priv >>= (λ der. ok (gen.encode (private_block der)))) e in
    let (der, marshalled, e₂) =
      bind-eq-ok {B = Text} (gen.marshal_pkcs8 raw) (λ der. ok (gen.encode (private_block der)))
        e₁ in
    let (key, wrapped) = wraps raw in
    let same : gen.encode (private_block der) ≡ pem = cc e₂ in
    (
      raw,
      key,
      made,
      wrapped,
      rw⁻¹ same (
          parse_hpke_keys-encode h sha256 gen parsers law raw key der
            (law.parse_marshal raw der marshalled) wrapped),
    )
