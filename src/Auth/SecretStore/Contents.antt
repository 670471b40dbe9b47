-- ===== src/Auth/SecretStore/Contents.antt =====
-- The secret store keeps the promises of a Persister.
use muthur_collector.Prelude.{
  ℕ, suc, ◌≡◌, refl, ap, ◌∙◌, inl, inr, Bool, true, ◌||◌, Option, none, some, List, [], ◌∷◌, Text,
  text, text_eq, ◌==◌, nat_eq, bytes_eq, ltb, length, arith, Bool-cases, Option-cases,
  if◌then◌else◌,
}
use muthur_collector.Prelude.Assoc.{get, lookup}
use muthur_collector.Prelude.Result.{Result, ok, err}
use muthur_collector.Errors.{Error}
use muthur_collector.Auth.Persister.{Material, IsPersister, is_provisioned, with_kept_ca}
use muthur_collector.Auth.SecretStore.{
  Secret, Faults, SecretStore, ApiError, not_found, api_refused, api_get, material_of, exists_in,
  read_from, entries_of, committed, write_over, write_secret, secret_exists, read_secret,
  secret_persister, secret_key_ca,
}

abbrev pub contents : Option Secret → Option Material
contents none = none
contents (some sec) = some (material_of sec)

api_get-stored :
    (faults : Faults) (stored : Option Secret) (sec : Secret)
    → api_get faults stored ≡ ok sec
    → stored ≡ some sec
api_get-stored faults stored sec e = elim (Option-cases faults.get_fault) [
  | inr (x, fault) ↦ cc (rw fault at e)
  | inl fine ↦ elim (Option-cases stored) [
    | inl missing ↦ cc (rw (fine, missing) at e)
    | inr (sec', found) ↦ let same : ok sec' ≡ ok sec = rw (fine, found) at e in found ∙ cc same
  ]
]

api_get-not_found :
    (faults : Faults) (stored : Option Secret)
    → api_get faults stored ≡ err not_found
    → stored ≡ none
api_get-not_found faults stored e = elim (Option-cases faults.get_fault) [
  | inr (x, fault) ↦ cc (rw fault at e)
  | inl fine ↦ elim (Option-cases stored) [
    | inl missing ↦ missing
    | inr (sec', found) ↦ cc (rw (fine, found) at e)
  ]
]

-- What the entries of a new secret hold.
abbrev of_entries : List (Text × Text) → Material
of_entries entries = record {
  cert = get entries (text "tls.crt");
  key = get entries (text "tls.key");
  ca = get entries secret_key_ca;
}

ltb-suc : (n : ℕ) → ltb 0 (suc n) ≡ true
ltb-suc n = ground arith

without_ca :
    (cert key ca : Text)
    → let m : Material = record { cert = cert; key = key; ca = ca } in
      (if ltb 0 (length ca) then m else record m { ca = [] }) ≡ m
without_ca cert key [] = refl
without_ca cert key (c ∷ ca) = rw (ltb-suc (length ca)) refl

of_entries-entries_of :
    (cert key ca old_ca : Text)
    → let m : Material = record { cert = cert; key = key; ca = ca } in
      of_entries (entries_of m old_ca) ≡ (if ltb 0 (length ca) then m else record m { ca = old_ca })
unfolding get lookup text_eq
of_entries-entries_of cert key [] [] = refl
of_entries-entries_of cert key [] (c ∷ old_ca) = rw (ltb-suc (length old_ca)) refl
of_entries-entries_of cert key (c ∷ ca) old_ca = rw (ltb-suc (length ca)) refl

module _ (store : SecretStore) (faults : Faults) where
  committed-stores :
      (message : Text) (fault : Option Error) (sec : Secret) (stored stored' : Option Secret)
      → committed message fault sec stored ≡ (none, stored')
      → stored' ≡ some sec
  committed-stores message none sec stored stored' e = cc
  committed-stores message (some x) sec stored stored' e = cc

  committed-fails :
      (message : Text) (fault : Option Error) (sec : Secret) (stored stored' : Option Secret)
      (e : Error)
      → committed message fault sec stored ≡ (some e, stored')
      → stored' ≡ stored
  committed-fails message none sec stored stored' e h = cc
  committed-fails message (some x) sec stored stored' e h = cc

  write_over-fails :
      (m : Material) (r : Result ApiError Secret) (stored stored' : Option Secret) (e : Error)
      → write_over store faults m stored r ≡ (some e, stored')
      → stored' ≡ stored
  write_over-fails m (ok existing) stored stored' e h =
      committed-fails _ faults.update_fault _ stored stored' e h
  write_over-fails m (err not_found) stored stored' e h =
      committed-fails _ faults.create_fault _ stored stored' e h
  write_over-fails m (err (api_refused x)) stored stored' e h = cc

  write_over-stores :
      (m : Material) (r : Result ApiError Secret) (stored stored' : Option Secret)
      → api_get faults stored ≡ r
      → write_over store faults m stored r ≡ (none, stored')
      → contents stored' ≡ some (with_kept_ca m (contents stored))
  unfolding get
  write_over-stores m (ok existing) stored stored' found h =
      rw
        (
          committed-stores _ faults.update_fault _ stored stored' h,
          api_get-stored faults stored existing found,
        )
        (ap (λ (x : Material). some x)
          (of_entries-entries_of m.cert m.key m.ca (get existing.entries secret_key_ca)))
  write_over-stores m (err not_found) stored stored' found h =
      rw
        (
          committed-stores _ faults.create_fault _ stored stored' h,
          api_get-not_found faults stored found,
        )
        (ap (λ (x : Material). some x)
          (of_entries-entries_of m.cert m.key m.ca [] ∙ without_ca m.cert m.key m.ca))
  write_over-stores m (err (api_refused x)) stored stored' found h = cc

  exists_in_sound :
      (r : Result ApiError Secret) (stored : Option Secret) (b : Bool)
      → api_get faults stored ≡ r
      → exists_in r ≡ ok b
      → b ≡ is_provisioned (contents stored)
  exists_in_sound (ok sec) stored b found e = rw (api_get-stored faults stored sec found) (cc e)
  exists_in_sound (err not_found) stored b found e =
      rw (api_get-not_found faults stored found) (cc e)
  exists_in_sound (err (api_refused x)) stored b found e = cc

  read_from_sound :
      (r : Result ApiError Secret) (stored : Option Secret) (m : Material)
      → api_get faults stored ≡ r
      → read_from r ≡ ok m
      → contents stored ≡ some m
  read_from_sound (ok sec) stored m found e =
      let same : material_of sec ≡ m = cc e in
      rw (api_get-stored faults stored sec found) (ap (λ (x : Material). some x) same)
  read_from_sound (err not_found) stored m found e = cc
  read_from_sound (err (api_refused x)) stored m found e = cc

-- Whatever the API server refuses: Exists and Read tell what is stored; a Write that fails leaves it as
-- it was; one that succeeds was given a certificate and a key, and then Read gives them back, with the
-- CA that was given or, where none was, the one that was stored.
pub secret_persister-IsPersister :
    (store : SecretStore) (faults : Faults) → IsPersister (secret_persister store faults) contents
unfolding secret_exists read_secret write_secret
secret_persister-IsPersister store faults = record {
  exists_sound = λ s b e. exists_in_sound store faults (api_get faults s) s b refl e;
  read_sound = λ s m e. read_from_sound store faults (api_get faults s) s m refl e;
  write_fails = λ m s s' x e. elim (Bool-cases (length m.cert == 0 || length m.key == 0)) [
    | inl missing ↦ cc (rw missing at e)
    | inr given ↦ write_over-fails store faults m (api_get faults s) s s' x (rw given at e)
  ];
  write_stores = λ m s s' e. elim (Bool-cases (length m.cert == 0 || length m.key == 0)) [
    | inl missing ↦ cc (rw missing at e)
    | inr given ↦ (
      ground arith,
      write_over-stores store faults m (api_get faults s) s s' refl (rw given at e),
    )
  ];
}
