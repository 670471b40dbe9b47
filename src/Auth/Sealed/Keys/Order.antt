-- ===== src/Auth/Sealed/Keys/Order.antt =====
-- The order of the ids that ParseHPKEKeys keeps.
use mathlib.Core.Path.{subst}
use muthur_collector.Prelude.{
  ℕ, zero, suc, ◌<◌, map, ◌≡◌, refl, sym, ap, ◌∙◌, Bool, true, false, ◌||◌, Option, none, some,
  List, [], ◌∷◌, ◌++◌, Text, text, ◌==◌, bytes_eq, arith, length, Bool-cases, Option-cases, inl,
  inr, if◌then◌else◌,
}
use muthur_collector.Prelude.All.{All}
use muthur_collector.Prelude.Assoc.{lookup}
use muthur_collector.Prelude.Result.{ok, err, Result-cases, bind-eq-ok, ◌>>=◌}
use muthur_collector.Auth.Crypto.{Hpke, context, context-eq-ok}
use muthur_collector.Auth.Sealed.{HpkeKeySet}
use muthur_collector.Auth.Sealed.Keys.{
  PemBlock, Parsers, HpkePublicKey, hpke_key_id, add_key, key_of, add_block, parse_blocks,
  parse_hpke_keys, public,
}
use muthur_collector.Auth.Sealed.Keys.WellFormed.{
  Distinct, IsUsable, ended-eq-ok, parse_blocks-end, parse_blocks-next, parse_blocks-refused,
  parse_hpke_keys-IsUsable,
}

-- Whether the text is one of the list.
abbrev pub member : Text → List Text → Bool
member k [] = false
member k (j ∷ ks) = (j == k) || member k ks

-- The list, followed by those of the others that it does not have yet, each at its first place.
abbrev pub firsts_onto : List Text → List Text → List Text
firsts_onto ks [] = ks
firsts_onto ks (k ∷ more) = firsts_onto (if member k ks then ks else ks ++ k ∷ []) more

member-concat : (k j : Text) (ks : List Text) → member k (ks ++ j ∷ []) ≡ ((j == k) || member k ks)
member-concat k j [] = refl
member-concat k j (i ∷ ks) = let rest = member-concat k j ks in ground arith

abbrev is_some : {A : Type 0} → Option A → Bool
is_some none = false
is_some (some a) = true

module _ {Pub Priv Sender Recipient : Type 0} (h : Hpke Pub Priv Sender Recipient)
    (sha256 : Text → Text) {Raw : Type 0} (parsers : Parsers Raw Priv) where
  -- The id of a private key, if the bytes hold one that can be used.
  abbrev id_of_raw : Option Raw → List Text
  id_of_raw none = []
  id_of_raw (some raw) = elim (parsers.wrap_key raw) [
    | err e ↦ []
    | ok key ↦ hpke_key_id h sha256 (h.public_key key) ∷ []
  ]

  -- The id of the key of a block, or nothing for a block that is not a private key.
  abbrev pub block_ids : PemBlock → List Text
  block_ids block =
      if block.block_type == text "PRIVATE KEY"
      then elim (parsers.parse_pkcs8 block.bytes) [ err e ↦ [] | ok parsed ↦ id_of_raw parsed ]
      else []

  -- The ids of the first blocks of a file, in its order, repeated ones included.
  abbrev pub file_ids : ℕ → Text → List Text
  file_ids zero pem_text = []
  file_ids (suc rounds) pem_text = elim (parsers.decode pem_text) [
    | none ↦ []
    | some (block, rest) ↦ block_ids block ++ file_ids rounds rest
  ]

  -- The map has the ids of the order, and no others.
  abbrev IsInStep : HpkeKeySet Priv → Type 0
  IsInStep ks = (k : Text) → is_some (lookup k ks.keys) ≡ member k ks.order

  is_some-lookup :
      (k j : Text) (key : Priv) (keys : List (Text × Priv))
      → is_some (lookup k ((j, key) ∷ keys)) ≡ ((j == k) || is_some (lookup k keys))
  unfolding lookup
  is_some-lookup k j key keys = ground arith

  add_key-IsInStep :
      (key : Priv) (ks : HpkeKeySet Priv) → IsInStep ks → IsInStep (add_key h sha256 key ks)
  add_key-IsInStep key ks s k =
      let kid = hpke_key_id h sha256 (h.public_key key) in
      elim (Option-cases (lookup kid ks.keys)) [
        | inr (dup, found) ↦ rw (add_key, found) (s k)
        | inl missing ↦
            rw (add_key, missing)
              (is_some-lookup k kid key ks.keys
                ∙ ap (λ (b : Bool). (kid == k) || b) (s k)
                ∙ sym (member-concat k kid ks.order))
      ]

  add_key-order :
      (key : Priv) (ks : HpkeKeySet Priv)
      → IsInStep ks
      → let kid = hpke_key_id h sha256 (h.public_key key) in
        (add_key h sha256 key ks).order
        ≡ (if member kid ks.order then ks.order else ks.order ++ kid ∷ [])
  add_key-order key ks s =
      let kid = hpke_key_id h sha256 (h.public_key key) in
      elim (Option-cases (lookup kid ks.keys)) [
        | inr (dup, found) ↦
            let there : member kid ks.order ≡ true = sym (s kid) ∙ ap is_some found in
            rw (add_key, found, there) refl
        | inl missing ↦
            let absent : member kid ks.order ≡ false = sym (s kid) ∙ ap is_some missing in
            rw (add_key, missing, absent) refl
      ]

  -- A key set that keeps step, and whose order is what the ids make of the first one.
  abbrev Follows : List Text → HpkeKeySet Priv → List Text → Type 0
  Follows before ks ids = (ks.order ≡ firsts_onto before ids) × IsInStep ks

  block_ids-private :
      (block : PemBlock) (parsed : Option Raw) (raw : Raw) (key : Priv)
      → (block.block_type == text "PRIVATE KEY") ≡ true
      → parsers.parse_pkcs8 block.bytes ≡ ok parsed
      → parsed ≡ some raw
      → parsers.wrap_key raw ≡ ok key
      → block_ids block ≡ hpke_key_id h sha256 (h.public_key key) ∷ []
  block_ids-private block parsed raw key private e₁ e₂ e₃ = rw (private, e₁, e₂, id_of_raw, e₃) refl

  key_of-eq-ok :
      (parsed : Option Raw) (key : Priv)
      → key_of h sha256 parsers parsed ≡ ok key
      → (raw : Raw) × (parsed ≡ some raw) × (parsers.wrap_key raw ≡ ok key)
  key_of-eq-ok none key e = absurd cc
  key_of-eq-ok (some raw) key e = (raw, refl, context-eq-ok _ (parsers.wrap_key raw) e)

  add_block-Follows :
      (block : PemBlock) (ks ks' : HpkeKeySet Priv)
      → add_block h sha256 parsers block ks ≡ ok ks'
      → IsInStep ks
      → Follows ks.order ks' (block_ids block)
  unfolding add_block
  add_block-Follows block ks ks' e s = elim (Bool-cases (block.block_type == text "PRIVATE KEY")) [
    | inr skipped ↦
        let same : ks ≡ ks' = cc (rw skipped at e) in
        rw skipped (subst (λ (o : HpkeKeySet Priv). Follows ks.order o []) same (refl, s))
    | inl private ↦
        let (parsed, e₁, rest) =
          bind-eq-ok (context (text "parse HPKE key") (parsers.parse_pkcs8 block.bytes))
            (λ p. key_of h sha256 parsers p >>= (λ k. ok (add_key h sha256 k ks)))
            (rw private at e) in
        let (key, e₂, e₃) =
          bind-eq-ok (key_of h sha256 parsers parsed) (λ k. ok (add_key h sha256 k ks)) rest in
        let (raw, there, wrapped) = key_of-eq-ok parsed key e₂ in
        let same : add_key h sha256 key ks ≡ ks' = cc e₃ in
        let ids =
          block_ids-private block parsed raw key private
            (context-eq-ok _ (parsers.parse_pkcs8 block.bytes) e₁) there wrapped in
        subst (λ (o : HpkeKeySet Priv). Follows ks.order o (block_ids block)) same
          (rw ids (add_key-order key ks s), add_key-IsInStep key ks s)
  ]

  firsts_onto-append :
      (ks ids more : List Text)
      → firsts_onto ks (ids ++ more) ≡ firsts_onto (firsts_onto ks ids) more
  firsts_onto-append ks [] more = refl
  firsts_onto-append ks (k ∷ ids) more =
      firsts_onto-append (if member k ks then ks else ks ++ k ∷ []) ids more

  file_ids-end :
      (rounds : ℕ) (pem_text : Text)
      → parsers.decode pem_text ≡ none
      → file_ids (suc rounds) pem_text ≡ []
  file_ids-end rounds pem_text stop = rw (file_ids, stop) refl

  file_ids-next :
      (rounds : ℕ) (pem_text : Text) (block : PemBlock) (rest : Text)
      → parsers.decode pem_text ≡ some (block, rest)
      → file_ids (suc rounds) pem_text ≡ block_ids block ++ file_ids rounds rest
  file_ids-next rounds pem_text block rest more = rw (file_ids, more) refl

  parse_blocks-order :
      (rounds : ℕ) (pem_text : Text) (ks ks' : HpkeKeySet Priv)
      → parse_blocks h sha256 parsers rounds pem_text ks ≡ some (ok ks')
      → IsInStep ks
      → ks'.order ≡ firsts_onto ks.order (file_ids rounds pem_text)
  unfolding parse_blocks
  parse_blocks-order zero pem_text ks ks' e s = cc
  parse_blocks-order (suc rounds) pem_text ks ks' e s =
      elim (Option-cases (parsers.decode pem_text)) [
        | inl stop ↦
            let same : ks ≡ ks' =
              cc (parse_blocks-end h sha256 parsers rounds pem_text ks stop, e) in
            ap (λ (o : HpkeKeySet Priv). o.order) (sym same)
            ∙ ap (firsts_onto ks.order) (sym (file_ids-end rounds pem_text stop))
        | inr ((block, rest), more) ↦ elim (Result-cases (add_block h sha256 parsers block ks)) [
          | inr (x, refused) ↦ cc (
            parse_blocks-refused h sha256 parsers rounds pem_text ks block rest x more refused,
            e,
          )
          | inl (ks₁, added) ↦
              let (order, s₁) = add_block-Follows block ks ks₁ added s in
              let next =
                parse_blocks-next h sha256 parsers rounds pem_text ks block rest ks₁ more added in
              parse_blocks-order rounds rest ks₁ ks' (sym next ∙ e) s₁
              ∙ ap (λ (o : List Text). firsts_onto o (file_ids rounds rest)) order
              ∙ sym (firsts_onto-append ks.order (block_ids block) (file_ids rounds rest))
              ∙ ap (firsts_onto ks.order) (sym (file_ids-next rounds pem_text block rest more))
        ]
      ]

  -- A key set that the parser accepts has the ids of the private keys of the file, in its order and each
  -- at its first place. It advertises these, at least one and each once; the id of an advertised key is
  -- the id of its bytes, and the key set holds its private half under that id.
  pub parse_hpke_keys-InOrder :
      (pem_text : Text) (ks : HpkeKeySet Priv)
      → parse_hpke_keys h sha256 parsers pem_text ≡ some (ok ks)
      → (ks.order ≡ firsts_onto [] (file_ids (suc (length pem_text)) pem_text))
        × (map (λ (e : HpkePublicKey Pub). e.kid) (public h sha256 ks) ≡ ks.order)
        × (0 < length ks.order)
        × Distinct ks.order
        × All (IsUsable h sha256 ks) (public h sha256 ks)
  unfolding parse_hpke_keys lookup
  parse_hpke_keys-InOrder pem_text ks e =
      let start : HpkeKeySet Priv = record { order = []; keys = [] } in
      let (parsed, _) =
        ended-eq-ok h sha256 parsers
          (parse_blocks h sha256 parsers (suc (length pem_text)) pem_text start) ks e in
      let (some_key, distinct, kids, usable) =
        parse_hpke_keys-IsUsable h sha256 parsers pem_text ks e in
      (
        parse_blocks-order (suc (length pem_text)) pem_text start ks parsed (λ k. refl),
        kids,
        some_key,
        distinct,
        usable,
      )
