-- ===== src/Examples/Envelope.antt =====
-- Runs of the parser of the HPKE keys, and of what envelopes and signatures are bound to.
use muthur_collector.Prelude.{
  Bool, true, not, ◌&&◌, ◌==◌, nat_eq, List, ◌<◌, ◌≡◌, refl, none, some, Option, [], ◌∷◌, map, Text,
  text, text_eq, length, arith, ap, sym, take, drop, take-append, drop-append, ◌++◌,
}
use muthur_collector.Prelude.All.{All}
use muthur_collector.Prelude.Assoc.{lookup}
use muthur_collector.Prelude.Hex.{hex}
use muthur_collector.Prelude.Separators.{IsFree}
use muthur_collector.Prelude.Result.{Result, ok}
use muthur_collector.Errors.{Error}
use muthur_collector.Auth.SignatureBase.{
  Header, header_set, header_nonce, signed_components, component_value, signature_base,
}
use muthur_collector.Auth.HttpSig.Base.{HasNoBreak, CoversSame, signature_base-CoversSame}
use muthur_collector.Auth.Sealed.{HpkeKeySet}
use muthur_collector.Auth.Sealed.Conversation.{seal_binding-injective}
use muthur_collector.Auth.Sealed.Keys.Generated.{
  Generator, IsInverse, one_key, generate_hpke_key_pem, parse_hpke_keys-generate_hpke_key_pem,
}
use muthur_collector.Auth.Sealed.Keys.{PemBlock, Parsers, HpkePublicKey, parse_hpke_keys, public}
use muthur_collector.Auth.Sealed.Keys.Order.{firsts_onto, file_ids, parse_hpke_keys-InOrder}
use muthur_collector.Auth.Sealed.Keys.WellFormed.{
  Distinct, IsUsable, parse_hpke_keys_total, parse_hpke_keys-IsUsable,
}
use muthur_collector.Examples.Suite.{test_hpke, test_primitives}

-- A file whose blocks are its bytes.
abbrev byte_block : Text → Option (PemBlock × Text)
byte_block [] = none
byte_block (c ∷ s) = some (record { block_type = text "PRIVATE KEY"; bytes = c ∷ [] }, s)

abbrev parsers : Parsers Text Text
parsers = record {
  decode = byte_block;
  parse_pkcs8 = λ bytes. ok (some bytes);
  wrap_key = λ raw. ok raw;
}

byte_block-shorter :
    (s rest : Text) (b : PemBlock) → parsers.decode s ≡ some (b, rest) → length rest < length s
byte_block-shorter [] rest b e = cc
byte_block-shorter (c ∷ s) rest b e = let same : s ≡ rest = cc e in rw⁻¹ same (omega arith)

parse_hpke_keys_total_example :
    (r : Result Error (HpkeKeySet Text)) × (parse_hpke_keys test_hpke test_primitives.sha256 parsers
        (text "ab")
      ≡ some r)
parse_hpke_keys_total_example =
    parse_hpke_keys_total test_hpke test_primitives.sha256 parsers (text "ab") byte_block-shorter

-- The second key has the id of the first one, and is skipped.
abbrev key_set : HpkeKeySet Text
key_set = record { order = text "01" ∷ []; keys = (text "01", text "a") ∷ [] }

keys_parsed :
    parse_hpke_keys test_hpke test_primitives.sha256 parsers (text "ab") ≡ some (ok key_set)
unfolding parse_hpke_keys text_eq lookup hex
keys_parsed = refl

parse_hpke_keys-IsUsable_run :
    (0 < length key_set.order)
    × Distinct key_set.order
    × (map (λ (e : HpkePublicKey Text). e.kid) (public test_hpke test_primitives.sha256 key_set)
        ≡ key_set.order)
    × All
        (IsUsable test_hpke test_primitives.sha256 key_set)
        (public test_hpke test_primitives.sha256 key_set)
parse_hpke_keys-IsUsable_run =
    parse_hpke_keys-IsUsable test_hpke test_primitives.sha256 parsers (text "ab") key_set
      keys_parsed

-- Three blocks with two keys, the first of them once more at the end.
abbrev two_keys : HpkeKeySet Text
two_keys = record {
  order = text "62" ∷ text "61" ∷ [];
  keys = (text "61", text "a") ∷ (text "62", text "b") ∷ [];
}

two_keys_parsed : parse_hpke_keys test_hpke (λ s. s) parsers (text "bab") ≡ some (ok two_keys)
unfolding parse_hpke_keys text_eq lookup hex
two_keys_parsed = refl

parse_hpke_keys-InOrder_example :
    (two_keys.order ≡ firsts_onto [] (file_ids test_hpke (λ s. s) parsers 4 (text "bab")))
    × (map (λ (e : HpkePublicKey Text). e.kid) (public test_hpke (λ s. s) two_keys)
        ≡ two_keys.order)
    × (0 < length two_keys.order)
    × Distinct two_keys.order
    × All (IsUsable test_hpke (λ s. s) two_keys) (public test_hpke (λ s. s) two_keys)
parse_hpke_keys-InOrder_example =
    parse_hpke_keys-InOrder test_hpke (λ s. s) parsers (text "bab") two_keys two_keys_parsed

seal_binding-injective_run :
    (text "/muthur/v1/ingest" ≡ text "/muthur/v1/ingest")
    × (text "13" ≡ text "13")
    × (text "n\n" ≡ text "n\n")
seal_binding-injective_run =
    seal_binding-injective (text "/muthur/v1/ingest") (text "/muthur/v1/ingest") (text "13")
      (text "13") (text "n\n") (text "n\n") (λ e. omega arith, (λ e. omega arith, tt))
      (λ e. omega arith, (λ e. omega arith, tt)) refl refl

-- Two spellings of one header.
abbrev padded : Header
padded = header_set header_nonce (text " n0 ") []

abbrev plain : Header
plain = header_set header_nonce (text "n0") []

-- The test of a text for newlines.
is_free : Text → Bool
is_free [] = true
is_free (c ∷ s) = not (c == b'\n') && is_free s

is_free-IsFree : (s : Text) → is_free s ≡ true → IsFree b'\n' s
unfolding is_free
is_free-IsFree [] h = tt
is_free-IsFree (c ∷ s) h = (λ e. ground arith, is_free-IsFree s (ground arith))

are_free : List Text → (Text → Text) → Bool
unfolding is_free
are_free [] value = true
are_free (c ∷ components) value = is_free (value c) && are_free components value

are_free-All :
    (components : List Text) (value : Text → Text)
    → are_free components value ≡ true
    → All (λ c. IsFree b'\n' (value c)) components
unfolding are_free
are_free-All [] value h = tt
are_free-All (c ∷ components) value h =
    (is_free-IsFree (value c) (ground arith), are_free-All components value (ground arith))

padded-HasNoBreak : HasNoBreak (text "post") (text "/p") padded
unfolding are_free component_value text_eq header_set
padded-HasNoBreak =
    are_free-All signed_components (component_value (text "post") (text "/p") padded) refl

plain-HasNoBreak : HasNoBreak (text "POST") (text "/p") plain
unfolding are_free component_value text_eq header_set
plain-HasNoBreak =
    are_free-All signed_components (component_value (text "POST") (text "/p") plain) refl

same_base :
    signature_base (text "post") (text "/p") padded (text "x")
    ≡ signature_base (text "POST") (text "/p") plain (text "x")
unfolding signature_base component_value text_eq header_set
same_base = refl

signature_base-CoversSame_example :
    CoversSame
      (text "post")
      (text "POST")
      (text "/p")
      (text "/p")
      padded
      plain
      (text "x")
      (text "x")
signature_base-CoversSame_example =
    signature_base-CoversSame (text "post") (text "POST") (text "/p") (text "/p") padded plain
      (text "x") (text "x") padded-HasNoBreak plain-HasNoBreak same_base

-- A file with one block: the length of its type, its type and its bytes.
abbrev one_block : Text → Option (PemBlock × Text)
one_block [] = none
one_block (n ∷ s) = some (record { block_type = take n s; bytes = drop n s }, [])

abbrev block_parsers : Parsers Text Text
block_parsers = record parsers { decode = one_block }

abbrev generator : Generator Text
generator = record {
  generate_key = λ random. ok random;
  marshal_pkcs8 = λ raw. ok raw;
  encode = λ b. length b.block_type ∷ (b.block_type ++ b.bytes);
}

generator-IsInverse : IsInverse generator block_parsers
generator-IsInverse = record {
  decode_nil = refl;
  decode_encode = λ b.
      rw
        (
          take-append b.block_type b.bytes (length b.block_type) refl,
          drop-append b.block_type b.bytes (length b.block_type) refl,
        )
        refl;
  parse_marshal =
      λ raw der made. let same : raw ≡ der = cc made in ap (λ (x : Text). ok (some x)) (sym same);
}

abbrev key_file : Text
key_file = 11 ∷ text "PRIVATE KEYseed"

key_file_generated : generate_hpke_key_pem generator (text "seed") ≡ ok key_file
unfolding generate_hpke_key_pem
key_file_generated = refl

parse_hpke_keys-generate_hpke_key_pem_example :
    (raw : Text) × (key : Text) × (generator.generate_key (text "seed") ≡ ok raw)
    × (block_parsers.wrap_key raw ≡ ok key)
    × (parse_hpke_keys test_hpke test_primitives.sha256 block_parsers key_file
        ≡ some (ok (one_key test_hpke test_primitives.sha256 generator block_parsers key)))
parse_hpke_keys-generate_hpke_key_pem_example =
    parse_hpke_keys-generate_hpke_key_pem test_hpke test_primitives.sha256 generator block_parsers
      (text "seed") key_file generator-IsInverse (λ raw. (raw, refl)) key_file_generated
