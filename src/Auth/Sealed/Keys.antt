-- ===== src/Auth/Sealed/Keys.antt =====
-- The keys of internal/auth/sealed.go: their ids, the parser of a PEM file and the signatures on a key
-- list. PEM, PKCS#8 and the hash are parameters.
pub mod WellFormed
pub mod Order
pub mod Generated
use muthur_collector.Prelude.{
  ℕ, zero, suc, ◌/◌, ◌%◌, Bool, not, Option, none, some, List, [], ◌∷◌, ◌++◌, map, Text, text, ◌==◌,
  bytes_eq, length, take, ltb, if◌then◌else◌,
}
use muthur_collector.Prelude.Assoc.{lookup}
use muthur_collector.Prelude.Hex.{hex}
use muthur_collector.Prelude.Result.{Result, ok, err, ◌>>=◌}
use muthur_collector.Errors.{Error, other}
use muthur_collector.Auth.Crypto.{Hpke, context}
use muthur_collector.Auth.Sealed.{HpkeKeySet}

pub record PemBlock : Type 0 where
  pub block_type : Text
  pub bytes : Text

pub record Parsers (Raw Priv : Type 0) : Type 0 where
  -- pem.Decode: the first block and what follows it
  pub decode : Text → Option (PemBlock × Text)
  -- x509.ParsePKCS8PrivateKey; `none` is a key that is not of X25519
  pub parse_pkcs8 : Text → Result Error (Option Raw)
  -- hpke.NewDHKEMPrivateKey
  pub wrap_key : Raw → Result Error Priv

-- HPKEPublicKey
pub record HpkePublicKey (Pub : Type 0) : Type 0 where
  pub kid : Text
  pub key : Pub

module _ {Pub Priv Sender Recipient : Type 0} (h : Hpke Pub Priv Sender Recipient)
    (sha256 : Text → Text) where
  unfoldable pub hpke_key_id : Pub → Text
  hpke_key_id pub_key = hex (take 8 (sha256 (h.public_bytes pub_key)))

  -- A key that is there already is skipped.
  abbrev add_key : Priv → HpkeKeySet Priv → HpkeKeySet Priv
  add_key key ks = elim (lookup (hpke_key_id (h.public_key key)) ks.keys) [
    | some dup ↦ ks
    | none ↦ record {
      order = ks.order ++ hpke_key_id (h.public_key key) ∷ [];
      keys = (hpke_key_id (h.public_key key), key) ∷ ks.keys;
    }
  ]

  module _ {Raw : Type 0} (parsers : Parsers Raw Priv) where
    abbrev key_of : Option Raw → Result Error Priv
    key_of none = err (other (text "auth: HPKE key must be X25519"))
    key_of (some raw) = context (text "wrap HPKE key") (parsers.wrap_key raw)

    -- One block of the file.
    unfoldable pub add_block : PemBlock → HpkeKeySet Priv → Result Error (HpkeKeySet Priv)
    unfolding hpke_key_id
    add_block block ks = if not (block.block_type == text "PRIVATE KEY") then ok ks else (do
      parsed ← context (text "parse HPKE key") (parsers.parse_pkcs8 block.bytes)
      key ← key_of parsed
      ok (add_key key ks))

    -- The loop over the blocks, with a bound on its rounds; `none` is to run out of it.
    unfoldable pub parse_blocks :
        ℕ → Text → HpkeKeySet Priv → Option (Result Error (HpkeKeySet Priv))
    unfolding add_block
    parse_blocks zero pem_text ks = none
    parse_blocks (suc rounds) pem_text ks = elim (parsers.decode pem_text) [
      | none ↦ some (ok ks)
      | some (block, rest) ↦ elim (add_block block ks) [
        | err e ↦ some (err e)
        | ok ks' ↦ parse_blocks rounds rest ks'
      ]
    ]

    abbrev non_empty : Result Error (HpkeKeySet Priv) → Result Error (HpkeKeySet Priv)
    non_empty (err e) = err e
    non_empty (ok ks) =
        if ltb 0 (length ks.order)
        then ok ks
        else err (other (text "auth: no X25519 private key found in HPKE key file"))

    abbrev ended : Option (Result Error (HpkeKeySet Priv)) → Option (Result Error (HpkeKeySet Priv))
    ended none = none
    ended (some r) = some (non_empty r)

    -- ParseHPKEKeys, with one round more than the file has bytes.
    unfoldable pub parse_hpke_keys : Text → Option (Result Error (HpkeKeySet Priv))
    unfolding parse_blocks
    parse_hpke_keys pem_text =
        ended (parse_blocks (suc (length pem_text)) pem_text (record { order = []; keys = [] }))

    -- LoadHPKEKeys, of what os.ReadFile gave.
    abbrev pub load_hpke_keys : Result Error Text → Option (Result Error (HpkeKeySet Priv))
    load_hpke_keys (err e) = some (context (text "read HPKE key file") (err e))
    load_hpke_keys (ok content) = parse_hpke_keys content

  -- Public: each id of the order with the public half of its key.
  abbrev entry_of : List (Text × Priv) → Text → List (HpkePublicKey Pub)
  entry_of keys kid = elim (lookup kid keys) [
    | none ↦ []
    | some key ↦ record { kid = kid; key = h.public_key key } ∷ []
  ]

  public_entries : List (Text × Priv) → List Text → List (HpkePublicKey Pub)
  public_entries keys [] = []
  public_entries keys (kid ∷ order) = entry_of keys kid ++ public_entries keys order

  unfoldable pub public : HpkeKeySet Priv → List (HpkePublicKey Pub)
  unfolding public_entries
  public ks = public_entries ks.keys ks.order
