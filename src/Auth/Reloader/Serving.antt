-- ===== src/Auth/Reloader/Serving.antt =====
-- What the reloader serves over its life.
use mathlib.Core.Path.{subst}
use muthur_collector.Prelude.{
  ◌≡◌, refl, Bool, true, false, ◌&&◌, none, some, List, [], ◌∷◌, Text, arith, ◌⊎◌, inl, inr,
  Bool-cases, Option-cases, ap, sym, ◌∙◌,
}
use muthur_collector.Prelude.Int.{ℤ}
use muthur_collector.Prelude.Result.{Result, ok, err}
use muthur_collector.Auth.Reloader.{
  Disk, Cached, Reloader, newer_than, cached_or, load, reload, get_client_certificate,
  new_client_reloader, current, loaded,
}

abbrev pub is_err : {A : Type 0} → Result Text A → Bool
is_err (ok a) = false
is_err (err e) = true

-- Whether a Stat found a file that is newer than what is cached.
abbrev pub found_newer : {Cert : Type 0} → Cached Cert → Result Text ℤ → Bool
found_newer cached (ok mtime) = newer_than mtime cached
found_newer cached (err e) = false

-- With a certificate cached, a handshake is refused exactly when the first Stat finds a newer file and
-- the second Stat, in load, fails: no other failure of the disk stops the service.
pub get_client_certificate-refuses :
    {Cert : Type 0} (disk : Disk Cert) (cached : Cached Cert)
    → is_err (get_client_certificate disk (some cached)).0
      ≡ (found_newer cached disk.first_stat && is_err disk.load_stat)
unfolding get_client_certificate reload load cached_or
get_client_certificate-refuses disk cached = ground arith

-- The handshakes of the reloader's life, each with what the disk answers.
unfoldable pub after_handshakes : {Cert : Type 0} → List (Disk Cert) → Reloader Cert → Reloader Cert
after_handshakes [] r = r
after_handshakes (disk ∷ disks) r = after_handshakes disks (get_client_certificate disk r).1

-- The certificate comes from the disk of one of the calls.
abbrev pub ComesFrom : {Cert : Type 0} → List (Disk Cert) → Cert → Type 0
ComesFrom [] cert = ⊥
ComesFrom (disk ∷ disks) cert = (disk.key_pair ≡ ok cert) ⊎ ComesFrom disks cert

abbrev disk_of : {Cert : Type 0} → Result Text ℤ → Result Text ℤ → Result Text Cert → Disk Cert
disk_of stat stat' pair = record { first_stat = stat; load_stat = stat'; key_pair = pair }

-- The cache after a step, which is what was cached or what the disk holds.
abbrev IsKept : {Cert : Type 0} → Disk Cert → Cached Cert → Reloader Cert → Type 0
IsKept disk cached none = ⊥
IsKept disk cached (some cached') = (cached'.cert ≡ cached.cert) ⊎ (disk.key_pair ≡ ok cached'.cert)

load-IsKept :
    {Cert : Type 0} (stat stat' : Result Text ℤ) (pair : Result Text Cert) (cached : Cached Cert)
    → let disk = disk_of stat stat' pair in IsKept disk cached (load disk (some cached)).1
unfolding load
load-IsKept stat (err e) pair cached = inl refl
load-IsKept stat (ok t) (err e) cached = inl refl
load-IsKept stat (ok t) (ok cert) cached = inr refl

get-IsKept :
    {Cert : Type 0} (stat stat' : Result Text ℤ) (pair : Result Text Cert) (cached : Cached Cert)
    → let disk = disk_of stat stat' pair in
      IsKept disk cached (get_client_certificate disk (some cached)).1
unfolding get_client_certificate reload
get-IsKept (err e) stat' pair cached = inl refl
get-IsKept (ok t) stat' pair cached = elim (Bool-cases (newer_than t cached)) [
  | inl newer ↦ rw newer (load-IsKept (ok t) stat' pair cached)
  | inr old ↦ rw old (inl refl)
]

handshakes-ComesFrom :
    {Cert : Type 0} (disks : List (Disk Cert)) (cached : Cached Cert)
    → (cert : Cert) × (current (after_handshakes disks (some cached)) ≡ some cert)
      × ((cert ≡ cached.cert) ⊎ ComesFrom disks cert)
unfolding after_handshakes current
handshakes-ComesFrom [] cached = (cached.cert, refl, inl refl)
handshakes-ComesFrom (disk ∷ disks) cached =
    elim (Option-cases (get_client_certificate disk (some cached)).1) [
      | inl e ↦ absurd (subst (IsKept disk cached) e kept)
      | inr (cached', e) ↦
          let (cert, served, from) = handshakes-ComesFrom disks cached' in
          (
            cert,
            ap (λ (r : Reloader _). current (after_handshakes disks r)) e ∙ served,
            elim from [
              | inr later ↦ inr (inr later)
              | inl same ↦ elim (subst (IsKept disk cached) e kept) [
                | inl old ↦ inl (same ∙ old)
                | inr new ↦ inr (inl (new ∙ ap (λ (c : _). ok c) (sym same)))
              ]
            ],
          )
    ]
  where
    kept : IsKept disk cached (get_client_certificate disk (some cached)).1
    kept = get-IsKept disk.first_stat disk.load_stat disk.key_pair cached

loaded-ComesFrom :
    {Cert : Type 0} (stat stat' : Result Text ℤ) (pair : Result Text Cert) (r : Reloader Cert)
    → loaded (load (disk_of stat stat' pair) none) ≡ ok r
    → (cached : Cached Cert) × (r ≡ some cached) × (pair ≡ ok cached.cert)
unfolding load cached_or
loaded-ComesFrom stat (err e) pair r h = absurd (ground arith)
loaded-ComesFrom stat (ok t) (err e) r h = absurd (ground arith)
loaded-ComesFrom stat (ok t) (ok cert) r h = (record { cert = cert; mtime = t }, ground arith, refl)

new_client_reloader-loaded :
    {Cert : Type 0} (cert_file key_file : Text) (disk : Disk Cert) (r : Reloader Cert)
    → new_client_reloader cert_file key_file disk ≡ ok r
    → loaded (load disk none) ≡ ok r
unfolding new_client_reloader
new_client_reloader-loaded cert_file key_file disk r h = ground arith

pub new-ComesFrom :
    {Cert : Type 0} (cert_file key_file : Text) (disk : Disk Cert) (r : Reloader Cert)
    → new_client_reloader cert_file key_file disk ≡ ok r
    → (cached : Cached Cert) × (r ≡ some cached) × (disk.key_pair ≡ ok cached.cert)
new-ComesFrom cert_file key_file disk r h =
    loaded-ComesFrom disk.first_stat disk.load_stat disk.key_pair r
      (new_client_reloader-loaded cert_file key_file disk r h)

-- Once the reloader has started, it has a certificate to serve after any handshakes, whatever the disk
-- answered, and that is the certificate of the disk at the start or at one of the handshakes.
pub reloader-ComesFrom :
    {Cert : Type 0} (cert_file key_file : Text) (disk : Disk Cert) (disks : List (Disk Cert))
    (r : Reloader Cert)
    → new_client_reloader cert_file key_file disk ≡ ok r
    → (cert : Cert) × (current (after_handshakes disks r) ≡ some cert)
      × ComesFrom (disk ∷ disks) cert
reloader-ComesFrom cert_file key_file disk disks r e =
    let (cached, started, pair) = new-ComesFrom cert_file key_file disk r e in
    let (cert, served, from) = handshakes-ComesFrom disks cached in
    (
      cert,
      ap (λ (r' : Reloader _). current (after_handshakes disks r')) started ∙ served,
      elim from [ inl same ↦ inl (pair ∙ ap (λ (c : _). ok c) (sym same)) | inr later ↦ inr later ],
    )
