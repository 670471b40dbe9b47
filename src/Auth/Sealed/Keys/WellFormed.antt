-- ===== src/Auth/Sealed/Keys/WellFormed.antt =====
-- What ParseHPKEKeys returns, and that it returns.
use mathlib.Core.Path.{subst}
use muthur_collector.Prelude.{
  ℕ, zero, suc, ◌<◌, ◌≡◌, ◌≢◌, refl, ap, sym, ◌∙◌, inl, inr, not, Option, none, some, List, [], ◌∷◌,
  ◌++◌, map, Text, text, text_eq_iff, ◌==◌, bytes_eq, arith, length, Bool-cases, Option-cases,
}
use muthur_collector.Prelude.All.{All, All-append}
use muthur_collector.Prelude.Assoc.{lookup}
use muthur_collector.Prelude.Result.{Result, ok, err, Result-cases, bind-eq-ok, ◌>>=◌}
use muthur_collector.Errors.{Error}
use muthur_collector.Auth.Crypto.{Hpke, context}
use muthur_collector.Auth.Sealed.{HpkeKeySet}
use muthur_collector.Auth.Sealed.Keys.{
  PemBlock, Parsers, HpkePublicKey, hpke_key_id, add_key, key_of, add_block, parse_blocks,
  non_empty, ended, parse_hpke_keys, entry_of, public_entries, public,
}

-- No text stands twice in the list.
abbrev pub Distinct : List Text → Type 0
Distinct [] = Unit
Distinct (k ∷ ks) = All (λ j. j ≢ k) ks × Distinct ks

Distinct-concat :
    (ks : List Text) (k : Text) → Distinct ks → All (λ j. j ≢ k) ks → Distinct (ks ++ k ∷ [])
Distinct-concat [] k d h = (tt, tt)
Distinct-concat (j ∷ ks) k d h =
    (All-append (λ i. i ≢ j) ks (k ∷ []) d.0 (λ e. h.0 (sym e), tt), Distinct-concat ks k d.1 h.1)

lookup-cons_self :
    {V : Type 0} (k : Text) (v : V) (m : List (Text × V)) → lookup k ((k, v) ∷ m) ≡ some v
unfolding lookup
lookup-cons_self k v m = rw ((text_eq_iff k k).1 refl) refl

All-imp :
    {A : Type 0} (P Q : A → Type 0) (f : (a : A) → P a → Q a) (xs : List A) → All P xs → All Q xs
All-imp P Q f [] h = tt
All-imp P Q f (x ∷ xs) h = (f x h.0, All-imp P Q f xs h.1)

module _ {Pub Priv Sender Recipient : Type 0} (h : Hpke Pub Priv Sender Recipient)
    (sha256 : Text → Text) where
  -- The key that a kid has, and that the kid is the id of that key.
  abbrev IsKept : List (Text × Priv) → Text → Type 0
  IsKept keys kid =
      (key : Priv) × (lookup kid keys ≡ some key) × (hpke_key_id h sha256 (h.public_key key) ≡ kid)

  record IsKeySet (ks : HpkeKeySet Priv) : Type 0 where
    distinct : Distinct ks.order
    kept : All (IsKept ks.keys) ks.order

  IsKept-ne :
      (keys : List (Text × Priv)) (kid j : Text) → lookup kid keys ≡ none → IsKept keys j → j ≢ kid
  IsKept-ne keys kid j missing (key, found, id) e =
      cc (ap (λ (k : Text). lookup k keys) e, found, missing)

  IsKept-cons :
      (keys : List (Text × Priv)) (kid j : Text) (key : Priv)
      → lookup kid keys ≡ none
      → IsKept keys j
      → IsKept ((kid, key) ∷ keys) j
  unfolding lookup
  IsKept-cons keys kid j key missing (key', found, id) = elim (Bool-cases (kid == j)) [
    | inr other ↦ (key', rw other found, id)
    | inl same ↦
        absurd (IsKept-ne keys kid j missing (key', found, id) (sym ((text_eq_iff kid j).0 same)))
  ]

  add_key-IsKeySet :
      (key : Priv) (ks : HpkeKeySet Priv) → IsKeySet ks → IsKeySet (add_key h sha256 key ks)
  add_key-IsKeySet key ks s =
      let kid = hpke_key_id h sha256 (h.public_key key) in
      elim (Option-cases (lookup kid ks.keys)) [
        | inr (dup, found) ↦ rw (add_key, found) s
        | inl missing ↦
            rw (add_key, missing)
              (record {
                distinct = Distinct-concat ks.order kid s.distinct (
                    All-imp (IsKept ks.keys) (λ j. j ≢ kid) (λ j. IsKept-ne ks.keys kid j missing)
                      ks.order s.kept);
                kept =
                    All-append (IsKept ((kid, key) ∷ ks.keys)) ks.order (kid ∷ [])
                      (All-imp (IsKept ks.keys) (IsKept ((kid, key) ∷ ks.keys))
                        (λ j. IsKept-cons ks.keys kid j key missing) ks.order s.kept)
                      ((key, lookup-cons_self kid key ks.keys, refl), tt);
              })
      ]

  module _ {Raw : Type 0} (parsers : Parsers Raw Priv) where
    add_block-IsKeySet :
        (block : PemBlock) (ks ks' : HpkeKeySet Priv)
        → add_block h sha256 parsers block ks ≡ ok ks'
        → IsKeySet ks
        → IsKeySet ks'
    unfolding add_block
    add_block-IsKeySet block ks ks' e s =
        elim (Bool-cases (not (block.block_type == text "PRIVATE KEY"))) [
          | inl skipped ↦ let same : ks ≡ ks' = cc (rw skipped at e) in subst IsKeySet same s
          | inr private ↦
              let (parsed, _, e₁) =
                bind-eq-ok (context (text "parse HPKE key") (parsers.parse_pkcs8 block.bytes))
                  (λ p. key_of h sha256 parsers p >>= (λ k. ok (add_key h sha256 k ks)))
                  (rw private at e) in
              let (key, _, e₂) =
                bind-eq-ok (key_of h sha256 parsers parsed) (λ k. ok (add_key h sha256 k ks)) e₁ in
              let same : add_key h sha256 key ks ≡ ks' = cc e₂ in
              subst IsKeySet same (add_key-IsKeySet key ks s)
        ]

    module _ (rounds : ℕ) (pem_text : Text) (ks : HpkeKeySet Priv) where
      pub parse_blocks-end :
          parsers.decode pem_text ≡ none
          → parse_blocks h sha256 parsers (suc rounds) pem_text ks ≡ some (ok ks)
      unfolding parse_blocks
      parse_blocks-end e = rw (parse_blocks, e) refl

      pub parse_blocks-refused :
          (block : PemBlock) (rest : Text) (x : Error)
          → parsers.decode pem_text ≡ some (block, rest)
          → add_block h sha256 parsers block ks ≡ err x
          → parse_blocks h sha256 parsers (suc rounds) pem_text ks ≡ some (err x)
      unfolding parse_blocks
      parse_blocks-refused block rest x e added = ground arith

      pub parse_blocks-next :
          (block : PemBlock) (rest : Text) (ks' : HpkeKeySet Priv)
          → parsers.decode pem_text ≡ some (block, rest)
          → add_block h sha256 parsers block ks ≡ ok ks'
          → parse_blocks h sha256 parsers (suc rounds) pem_text ks
            ≡ parse_blocks h sha256 parsers rounds rest ks'
      unfolding parse_blocks
      parse_blocks-next block rest ks' e added = ground arith

    parse_blocks-IsKeySet :
        (rounds : ℕ) (pem_text : Text) (ks ks' : HpkeKeySet Priv)
        → parse_blocks h sha256 parsers rounds pem_text ks ≡ some (ok ks')
        → IsKeySet ks
        → IsKeySet ks'
    unfolding parse_blocks
    parse_blocks-IsKeySet zero pem_text ks ks' e s = cc
    parse_blocks-IsKeySet (suc rounds) pem_text ks ks' e s =
        elim (Option-cases (parsers.decode pem_text)) [
          | inl stop ↦
              let same : ks ≡ ks' = cc (parse_blocks-end rounds pem_text ks stop, e) in
              subst IsKeySet same s
          | inr ((block, rest), more) ↦ elim (Result-cases (add_block h sha256 parsers block ks)) [
            | inr (x, refused) ↦
                cc (parse_blocks-refused rounds pem_text ks block rest x more refused, e)
            | inl (ks₁, added) ↦
                parse_blocks-IsKeySet rounds rest ks₁ ks'
                  (sym (parse_blocks-next rounds pem_text ks block rest ks₁ more added) ∙ e)
                  (add_block-IsKeySet block ks ks₁ added s)
          ]
        ]

    parse_blocks_total :
        (rounds : ℕ) (pem_text : Text) (ks : HpkeKeySet Priv)
        → ((s rest : Text) (b : PemBlock)
            → parsers.decode s ≡ some (b, rest)
            → length rest < length s)
        → length pem_text < rounds
        → (r : Result Error (HpkeKeySet Priv)) × (parse_blocks h sha256 parsers rounds pem_text ks
            ≡ some r)
    parse_blocks_total zero pem_text ks shorter enough = absurd (omega arith)
    parse_blocks_total (suc rounds) pem_text ks shorter enough =
        elim (Option-cases (parsers.decode pem_text)) [
          | inl stop ↦ (ok ks, parse_blocks-end rounds pem_text ks stop)
          | inr ((block, rest), more) ↦ elim (Result-cases (add_block h sha256 parsers block ks)) [
            | inr (x, refused) ↦
                (err x, parse_blocks-refused rounds pem_text ks block rest x more refused)
            | inl (ks₁, added) ↦
                let (r, done) =
                  parse_blocks_total rounds rest ks₁ shorter
                    (omega (arith, shorter pem_text rest block more)) in
                (r, parse_blocks-next rounds pem_text ks block rest ks₁ more added ∙ done)
          ]
        ]

    -- If what follows a PEM block is shorter than what held it, the parser ends, with a key set or an
    -- error: the bound on its rounds is never met.
    pub parse_hpke_keys_total :
        (pem_text : Text)
        → ((s rest : Text) (b : PemBlock)
            → parsers.decode s ≡ some (b, rest)
            → length rest < length s)
        → (r : Result Error (HpkeKeySet Priv)) × (parse_hpke_keys h sha256 parsers pem_text
            ≡ some r)
    unfolding parse_hpke_keys
    parse_hpke_keys_total pem_text shorter =
        let (r, done) =
          parse_blocks_total (suc (length pem_text)) pem_text (record { order = []; keys = [] })
            shorter (omega arith) in
        (non_empty h sha256 parsers r, rw done refl)

  -- An advertised key: its id is the id of the key, and the private half is there under that id.
  abbrev pub IsUsable : HpkeKeySet Priv → HpkePublicKey Pub → Type 0
  IsUsable ks e =
      (hpke_key_id h sha256 e.key ≡ e.kid)
      × (key : Priv) × (lookup e.kid ks.keys ≡ some key)
      × (h.public_key key ≡ e.key)

  public_entries-IsUsable :
      (ks : HpkeKeySet Priv) (order : List Text)
      → All (IsKept ks.keys) order
      → (map (λ (e : HpkePublicKey Pub). e.kid) (public_entries h sha256 ks.keys order) ≡ order)
        × All (IsUsable ks) (public_entries h sha256 ks.keys order)
  unfolding public_entries
  public_entries-IsUsable ks [] k = (refl, tt)
  public_entries-IsUsable ks (kid ∷ order) ((key, found, id), k) =
      let (kids, usable) = public_entries-IsUsable ks order k in
      rw (entry_of, found) (ap (λ (l : List Text). kid ∷ l) kids, ((id, key, found, refl), usable))

  module _ {Raw : Type 0} (parsers : Parsers Raw Priv) where
    pub ended-eq-ok :
        (o : Option (Result Error (HpkeKeySet Priv))) (ks : HpkeKeySet Priv)
        → ended h sha256 parsers o ≡ some (ok ks)
        → (o ≡ some (ok ks)) × (0 < length ks.order)
    ended-eq-ok none ks e = cc
    ended-eq-ok (some (err x)) ks e = cc
    ended-eq-ok (some (ok ks₀)) ks e = ground arith

    -- A key set that the parser accepts advertises at least one key, each once; the id of an advertised
    -- key is the id of its bytes, and the key set holds its private half under that id.
    pub parse_hpke_keys-IsUsable :
        (pem_text : Text) (ks : HpkeKeySet Priv)
        → parse_hpke_keys h sha256 parsers pem_text ≡ some (ok ks)
        → (0 < length ks.order)
          × Distinct ks.order
          × (map (λ (e : HpkePublicKey Pub). e.kid) (public h sha256 ks) ≡ ks.order)
          × All (IsUsable ks) (public h sha256 ks)
    unfolding parse_hpke_keys public
    parse_hpke_keys-IsUsable pem_text ks e =
        let (parsed, some_key) =
          ended-eq-ok
            (parse_blocks h sha256 parsers (suc (length pem_text)) pem_text
              (record { order = []; keys = [] }))
            ks e in
        let s =
          parse_blocks-IsKeySet parsers (suc (length pem_text)) pem_text
            (record { order = []; keys = [] }) ks parsed (record { distinct = tt; kept = tt }) in
        let (kids, usable) = public_entries-IsUsable ks ks.order s.kept in
        (some_key, s.distinct, kids, usable)
