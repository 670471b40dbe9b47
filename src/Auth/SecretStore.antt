-- ===== src/Auth/SecretStore.antt =====
-- internal/auth/secret_store.go: the Kubernetes Secret that holds the certificate. The API server keeps
-- the one secret that the store names; what it refuses is the record `Faults`, and a call that is
-- refused changes nothing.
pub mod Contents
use muthur_collector.Prelude.{
  ℕ, Bool, ◌&&◌, ◌||◌, nat_eq, Option, none, some, List, [], ◌∷◌, ◌++◌, Text, text, ◌==◌, bytes_eq,
  length, ltb, if◌then◌else◌, true, false,
}
use muthur_collector.Prelude.Assoc.{get}
use muthur_collector.Prelude.Result.{Result, ok, err}
use muthur_collector.Errors.{Error, wrap, other}
use muthur_collector.Auth.Persister.{Material, Persister}

abbrev pub secret_key_cert : Text
secret_key_cert = text "tls.crt"

abbrev pub secret_key_key : Text
secret_key_key = text "tls.key"

abbrev pub secret_key_ca : Text
secret_key_ca = text "ca.crt"

-- corev1.Secret, but for what the store never sets; `entries` is its field Data.
pub record Secret : Type 0 where
  pub name : Text
  pub namespace : Text
  pub annotations : List (Text × Text)
  pub secret_type : Text
  pub entries : List (Text × Text)

-- corev1.SecretTypeTLS
abbrev secret_type_tls : Text
secret_type_tls = text "kubernetes.io/tls"

-- The error of each call, if it has one other than NotFound.
pub record Faults : Type 0 where
  pub get_fault : Option Error
  pub update_fault : Option Error
  pub create_fault : Option Error

pub data ApiError : Type 0 where
  not_found : ApiError
  api_refused : Error → ApiError

abbrev api_get : Faults → Option Secret → Result ApiError Secret
api_get faults stored = elim faults.get_fault [
  | some e ↦ err (api_refused e)
  | none ↦ elim stored [ none ↦ err not_found | some sec ↦ ok sec ]
]

pub record SecretStore : Type 0 where
  pub namespace : Text
  pub secret_name : Text

-- NewSecretStoreInCluster; `client` is the error of the two constructors of client-go, if any.
unfoldable pub new_secret_store : Option Error → Text → Text → Result Error SecretStore
new_secret_store client namespace secret_name =
    if namespace == []
    then err (other (text "auth: namespace is required for SecretStore"))
    else if secret_name == []
    then err (other (text "auth: secretName is required for SecretStore"))
    else elim client [
      | some e ↦ err e
      | none ↦ ok (record { namespace = namespace; secret_name = secret_name })
    ]

-- The material of a secret.
abbrev pub material_of : Secret → Material
material_of sec = record {
  cert = get sec.entries secret_key_cert;
  key = get sec.entries secret_key_key;
  ca = get sec.entries secret_key_ca;
}

abbrev exists_in : Result ApiError Secret → Result Error Bool
exists_in (err not_found) = ok false
exists_in (err (api_refused e)) = err (wrap (text "get secret") e)
exists_in (ok sec) = ok (
    ltb 0 (length (get sec.entries secret_key_cert))
    && ltb 0 (length (get sec.entries secret_key_key)))

abbrev read_from : Result ApiError Secret → Result Error Material
read_from (err not_found) = err (wrap (text "get secret") (other (text "not found")))
read_from (err (api_refused e)) = err (wrap (text "get secret") e)
read_from (ok sec) = ok (material_of sec)

-- The data of the new secret, given the CA of the old one.
abbrev entries_of : Material → Text → List (Text × Text)
entries_of m old_ca =
    let pair = (secret_key_cert, m.cert) ∷ (secret_key_key, m.key) ∷ [] in
    if ltb 0 (length m.ca)
    then (secret_key_ca, m.ca) ∷ pair
    else if ltb 0 (length old_ca)
    then (secret_key_ca, old_ca) ∷ pair
    else pair

-- What is stored after a call that may fail.
abbrev committed : Text → Option Error → Secret → Option Secret → Option Error × Option Secret
committed message none sec stored = (none, some sec)
committed message (some e) sec stored = (some (wrap message e), stored)

abbrev keep_annotations : List (Text × Text)
keep_annotations =
    (text "argocd.argoproj.io/sync-options", text "Prune=false")
    ∷ (text "helm.sh/resource-policy", text "keep")
    ∷ []

abbrev write_over :
    SecretStore
    → Faults
    → Material
    → Option Secret
    → Result ApiError Secret
    → Option Error × Option Secret
write_over store faults m stored (ok existing) =
    committed (text "update secret") faults.update_fault
      (record existing {
        secret_type = secret_type_tls;
        entries = entries_of m (get existing.entries secret_key_ca);
      })
      stored
write_over store faults m stored (err not_found) =
    committed (text "create secret") faults.create_fault
      (record {
        name = store.secret_name;
        namespace = store.namespace;
        annotations = keep_annotations;
        secret_type = secret_type_tls;
        entries = entries_of m [];
      })
      stored
write_over store faults m stored (err (api_refused e)) = (some (wrap (text "get secret") e), stored)

unfoldable pub write_secret :
    SecretStore → Faults → Material → Option Secret → Option Error × Option Secret
unfolding get
write_secret store faults m stored =
    if length m.cert == 0 || length m.key == 0
    then (some (other (text "auth: cert and key are required")), stored)
    else write_over store faults m stored (api_get faults stored)

unfoldable pub secret_exists : Faults → Option Secret → Result Error Bool
unfolding get
secret_exists faults stored = exists_in (api_get faults stored)

unfoldable pub read_secret : Faults → Option Secret → Result Error Material
unfolding get
read_secret faults stored = read_from (api_get faults stored)

abbrev pub secret_persister : SecretStore → Faults → Persister (Option Secret)
secret_persister store faults = record {
  exists = secret_exists faults;
  read = read_secret faults;
  write = write_secret store faults;
}
