-- ===== src/Auth/Reloader.antt =====
-- internal/auth/reloader.go: the certificate that each handshake uses. What the disk answers during one
-- call is the record `Disk`; a modification time is its nanoseconds.
pub mod Serving
use muthur_collector.Prelude.{
  Bool, ◌||◌, not, Option, none, some, [], Text, text, ◌==◌, bytes_eq, if◌then◌else◌,
}
use muthur_collector.Prelude.Int.{ℤ, ltb_ℤ}
use muthur_collector.Prelude.Result.{Result, ok, err}

-- The answers to os.Stat in GetClientCertificate, to os.Stat in load and to tls.LoadX509KeyPair.
pub record Disk (Cert : Type 0) : Type 0 where
  pub first_stat : Result Text ℤ
  pub load_stat : Result Text ℤ
  pub key_pair : Result Text Cert

-- clientCertState
pub record Cached (Cert : Type 0) : Type 0 where
  pub cert : Cert
  pub mtime : ℤ

-- The pointer `cached` of the reloader, nil before the first load.
abbrev pub Reloader : Type 0 → Type 0
Reloader Cert = Option (Cached Cert)

-- The cached certificate if there is one, and the error if not.
unfoldable pub cached_or : {Cert : Type 0} → Text → Reloader Cert → Result Text Cert
cached_or e none = err e
cached_or e (some cached) = ok cached.cert

unfoldable pub load : {Cert : Type 0} → Disk Cert → Reloader Cert → Result Text Cert × Reloader Cert
unfolding cached_or
load disk r = elim disk.load_stat [
  | err e ↦ (err e, r)
  | ok mtime ↦ elim disk.key_pair [
    | err e ↦ (cached_or e r, r)
    | ok cert ↦ (ok cert, some (record { cert = cert; mtime = mtime }))
  ]
]

abbrev pub newer_than : {Cert : Type 0} → ℤ → Cached Cert → Bool
newer_than mtime cached = ltb_ℤ cached.mtime mtime

-- After a Stat that found `mtime`.
unfoldable pub reload :
    {Cert : Type 0} → Disk Cert → ℤ → Reloader Cert → Result Text Cert × Reloader Cert
unfolding load
reload disk mtime none = load disk none
reload disk mtime (some cached) =
    if not (newer_than mtime cached) then (ok cached.cert, some cached) else load disk (some cached)

unfoldable pub get_client_certificate :
    {Cert : Type 0} → Disk Cert → Reloader Cert → Result Text Cert × Reloader Cert
unfolding reload cached_or
get_client_certificate disk r = elim disk.first_stat [
  | err e ↦ (cached_or e r, r)
  | ok mtime ↦ reload disk mtime r
]

abbrev loaded : {Cert : Type 0} → Result Text Cert × Reloader Cert → Result Text (Reloader Cert)
loaded (err e, r) = err e
loaded (ok cert, r) = ok r

unfoldable pub new_client_reloader :
    {Cert : Type 0} → Text → Text → Disk Cert → Result Text (Reloader Cert)
unfolding load
new_client_reloader cert_file key_file disk =
    if cert_file == [] || key_file == []
    then err (text "auth: cert and key paths are required")
    else loaded (load disk none)

-- Current; `none` is the zero certificate.
unfoldable pub current : {Cert : Type 0} → Reloader Cert → Option Cert
current none = none
current (some cached) = some cached.cert
