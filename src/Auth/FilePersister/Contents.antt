-- ===== src/Auth/FilePersister/Contents.antt =====
-- What a write that succeeds leaves in the files.
use mathlib.Core.Path.{subst}
use mathlib.Core.Bool.{true≢false}
use muthur_collector.Prelude.{
  ◌≡◌, refl, sym, ap, ◌∙◌, ◌||◌, true, false, Bool-cases, inl, inr, Option, none, some, [], ◌∷◌,
  ◌++◌, Text, text, ◌==◌, bytes_eq, text_eq, text_eq_iff, Option-cases, ltb, length, if◌then◌else◌,
}
use muthur_collector.Prelude.Result.{ok}
use muthur_collector.Errors.{Error}
use muthur_collector.Auth.KeyPair.{
  CertMaterial, new_material, Files, put, Fate, success, no_temp, no_chmod, no_close, no_rename,
  no_write, Run, Write, write_atomic, then_if_ok, and_then, nothing, write_files, write_material,
}
use muthur_collector.Auth.Persister.{Material}
use muthur_collector.Auth.FilePersister.{as_error, content_or_empty, read_material, file_persister}

put-other :
    (path q : Text) (content : Option Text) (fs : Files)
    → (q == path) ≡ false
    → put path content fs q ≡ fs q
unfolding put
put-other path q content fs h = rw h refl

put-same : (path : Text) (content : Option Text) (fs : Files) → put path content fs path ≡ content
unfolding put
put-same path content fs = rw ((text_eq_iff path path).1 refl) refl

write_atomic-last :
    (tmp : Text) (fate : Fate) (path content : Text) (fs : Files)
    → (write_atomic tmp fate path content fs).error ≡ none
    → (write_atomic tmp fate path content fs).last ≡ put path (some content) (put tmp none fs)
unfolding write_atomic
write_atomic-last tmp success path content fs h = refl
write_atomic-last tmp no_temp path content fs h = absurd cc
write_atomic-last tmp no_chmod path content fs h = absurd cc
write_atomic-last tmp no_close path content fs h = absurd cc
write_atomic-last tmp no_rename path content fs h = absurd cc
write_atomic-last tmp (no_write part) path content fs h = absurd cc

and_then-fine :
    (e : Option Text) (r : Run) (next : Files → Run)
    → (then_if_ok e r next).error ≡ none
    → r.error ≡ e
    → (e ≡ none) × ((next r.last).error ≡ none) × ((then_if_ok e r next).last ≡ (next r.last).last)
and_then-fine none r next h same = (refl, h, refl)
and_then-fine (some x) r next h same = absurd (let stop : some x ≡ none = sym same ∙ h in cc stop)

-- The three files have different paths, and a temporary one has another path than these.
pub record IsDistinct (m : CertMaterial) : Type 0 where
  pub cert_key : (m.cert_file == m.key_file) ≡ false
  pub cert_ca : (m.cert_file == m.ca_file) ≡ false
  pub key_ca : (m.key_file == m.ca_file) ≡ false
  pub ca_cert : (m.ca_file == m.cert_file) ≡ false
  pub ca_key : (m.ca_file == m.key_file) ≡ false

pub record IsApart (m : CertMaterial) (w : Write) : Type 0 where
  pub cert : (m.cert_file == w.tmp) ≡ false
  pub key : (m.key_file == w.tmp) ≡ false
  pub ca : (m.ca_file == w.tmp) ≡ false

-- The files after a write that succeeded.
pub record IsWritten (m : CertMaterial) (cert key ca : Text) (fs fs' : Files) : Type 0 where
  pub cert_there : fs' m.cert_file ≡ some cert
  pub key_there : fs' m.key_file ≡ some key
  pub ca_there :
      content_or_empty (fs' m.ca_file)
      ≡ (if ltb 0 (length ca) then ca else content_or_empty (fs m.ca_file))

module _ (m : CertMaterial) (cert key ca : Text) (w₁ w₂ w₃ : Write) (d : IsDistinct m)
    (a₁ : IsApart m w₁) (a₂ : IsApart m w₂) (a₃ : IsApart m w₃) where
  abbrev cert_put : Files → Files
  cert_put fs = put m.cert_file (some cert) (put w₁.tmp none fs)

  abbrev key_put : Files → Files
  key_put fs = put m.key_file (some key) (put w₂.tmp none (cert_put fs))

  abbrev ca_put : Files → Files
  ca_put fs = put m.ca_file (some ca) (put w₃.tmp none fs)

  cert-key_put : (fs : Files) → key_put fs m.cert_file ≡ some cert
  cert-key_put fs =
      put-other m.key_file m.cert_file (some key) (put w₂.tmp none (cert_put fs)) d.cert_key
      ∙ put-other w₂.tmp m.cert_file none (cert_put fs) a₂.cert
      ∙ put-same m.cert_file (some cert) (put w₁.tmp none fs)

  ca-key_put : (fs : Files) → key_put fs m.ca_file ≡ fs m.ca_file
  ca-key_put fs =
      put-other m.key_file m.ca_file (some key) (put w₂.tmp none (cert_put fs)) d.ca_key
      ∙ put-other w₂.tmp m.ca_file none (cert_put fs) a₂.ca
      ∙ put-other m.cert_file m.ca_file (some cert) (put w₁.tmp none fs) d.ca_cert
      ∙ put-other w₁.tmp m.ca_file none fs a₁.ca

  ca_step :
      (fs : Files)
      → let r =
          if ltb 0 (length ca) then write_atomic w₃.tmp w₃.fate m.ca_file ca fs else nothing fs in
        r.error ≡ none
        → (r.last m.cert_file ≡ fs m.cert_file)
          × (r.last m.key_file ≡ fs m.key_file)
          × (content_or_empty (r.last m.ca_file)
              ≡ (if ltb 0 (length ca) then ca else content_or_empty (fs m.ca_file)))
  ca_step fs h = elim (Bool-cases (ltb 0 (length ca))) [
    | inr e ↦ rw e (refl, refl, refl)
    | inl e ↦
        let last = write_atomic-last w₃.tmp w₃.fate m.ca_file ca fs (rw e at h) in
        rw (e, last)
          (
            put-other m.ca_file m.cert_file (some ca) (put w₃.tmp none fs) d.cert_ca
                ∙ put-other w₃.tmp m.cert_file none fs a₃.cert,
            put-other m.ca_file m.key_file (some ca) (put w₃.tmp none fs) d.key_ca
                ∙ put-other w₃.tmp m.key_file none fs a₃.key,
            ap content_or_empty (put-same m.ca_file (some ca) (put w₃.tmp none fs)),
          )
  ]

  write_files-IsWritten :
      (fs : Files)
      → (write_files m cert key ca w₁ w₂ w₃ fs).error ≡ none
      → IsWritten m cert key ca fs (write_files m cert key ca w₁ w₂ w₃ fs).last
  unfolding write_files
  write_files-IsWritten fs h =
      let first = write_atomic w₁.tmp w₁.fate m.cert_file cert fs in
      let second = λ (fs' : Files). write_atomic w₂.tmp w₂.fate m.key_file key fs' in
      let third = λ (fs' : Files).
        if ltb 0 (length ca) then write_atomic w₃.tmp w₃.fate m.ca_file ca fs' else nothing fs' in
      let (both, ca_fine, last) =
        and_then-fine (and_then first second).error (and_then first second) third h refl in
      let (cert_fine, key_fine, pair) = and_then-fine first.error first second both refl in
      let before : (and_then first second).last ≡ key_put fs =
        pair
        ∙ write_atomic-last w₂.tmp w₂.fate m.key_file key first.last key_fine
        ∙ ap (λ (x : Files). put m.key_file (some key) (put w₂.tmp none x))
            (write_atomic-last w₁.tmp w₁.fate m.cert_file cert fs cert_fine) in
      let (cert_kept, key_kept, ca_now) = ca_step (and_then first second).last ca_fine in
      record {
        cert_there =
            ap (λ (f : Files). f m.cert_file) last
            ∙ cert_kept
            ∙ ap (λ (f : Files). f m.cert_file) before
            ∙ cert-key_put fs;
        key_there =
            ap (λ (f : Files). f m.key_file) last
            ∙ key_kept
            ∙ ap (λ (f : Files). f m.key_file) before
            ∙ put-same m.key_file (some key) (put w₂.tmp none (cert_put fs));
        ca_there =
            ap (λ (f : Files). content_or_empty (f m.ca_file)) last
            ∙ ca_now
            ∙ ap (λ (f : Files). if ltb 0 (length ca) then ca else content_or_empty (f m.ca_file))
                before
            ∙ ap (λ (o : Option Text). if ltb 0 (length ca) then ca else content_or_empty o)
                (ca-key_put fs);
      }

  write_material-IsWritten :
      (mkdir : Option Text) (fs : Files)
      → (write_material m cert key ca mkdir w₁ w₂ w₃ fs).error ≡ none
      → IsWritten m cert key ca fs (write_material m cert key ca mkdir w₁ w₂ w₃ fs).last
  unfolding write_material
  write_material-IsWritten mkdir fs h = elim (Bool-cases (cert == [] || key == [])) [
    | inl e ↦ absurd (let stop : some _ ≡ none = rw e at h in cc stop)
    | inr e ↦ elim (Option-cases mkdir) [
      | inl made ↦ rw (e, made) (write_files-IsWritten fs (rw (e, made) at h))
      | inr (x, failed) ↦ absurd (let stop : some x ≡ none = rw (e, failed) at h in cc stop)
    ]
  ]

append-cancel : (dir a b : Text) → dir ++ a ≡ dir ++ b → a ≡ b
append-cancel [] a b e = e
append-cancel (c ∷ dir) a b e = append-cancel dir a b cc

append-distinct : (dir a b : Text) → (a == b) ≡ false → (dir ++ a == dir ++ b) ≡ false
append-distinct dir a b h = elim (Bool-cases (dir ++ a == dir ++ b)) [
  | inr e ↦ e
  | inl e ↦
      let same = append-cancel dir a b ((text_eq_iff (dir ++ a) (dir ++ b)).0 e) in
      absurd (true≢false (sym ((text_eq_iff a b).1 same) ∙ h))
]

pub new_material-IsDistinct : (dir : Text) → IsDistinct (new_material dir)
unfolding text_eq
new_material-IsDistinct dir = record {
  cert_key = append-distinct dir (text "/tls.crt") (text "/tls.key") refl;
  cert_ca = append-distinct dir (text "/tls.crt") (text "/ca.crt") refl;
  key_ca = append-distinct dir (text "/tls.key") (text "/ca.crt") refl;
  ca_cert = append-distinct dir (text "/ca.crt") (text "/tls.crt") refl;
  ca_key = append-distinct dir (text "/ca.crt") (text "/tls.key") refl;
}

as_error-none : (e : Option Text) → as_error e ≡ none → e ≡ none
as_error-none none h = refl
as_error-none (some message) h = absurd (let stop : some _ ≡ none = h in cc stop)

-- What a FilePersister has written is there for Exists, whether or not it parses, and Read gives it
-- back, if the three paths differ and no temporary file has one of them: the certificate and the key
-- that were written, and the CA that was written, or the one that was there if none was.
pub file_persister-round_trip :
    (m : CertMaterial) (mkdir : Option Text) (w₁ w₂ w₃ : Write) (written : Material)
    (fs fs' : Files)
    → IsDistinct m
    → IsApart m w₁
    → IsApart m w₂
    → IsApart m w₃
    → let p = file_persister m mkdir w₁ w₂ w₃ in
      p.write written fs ≡ (none, fs')
      → (p.exists fs' ≡ ok true)
        × (p.read fs'
            ≡ ok (record written {
              ca =
                  if ltb 0 (length written.ca) then written.ca else content_or_empty (fs m.ca_file);
            }))
unfolding file_persister read_material
file_persister-round_trip m mkdir w₁ w₂ w₃ written fs fs' d a₁ a₂ a₃ e =
    let r = write_material m written.cert written.key written.ca mkdir w₁ w₂ w₃ fs in
    let fine = as_error-none r.error (ap (λ (x : Option Error × Files). x.0) e) in
    let last : r.last ≡ fs' = ap (λ (x : Option Error × Files). x.1) e in
    let left = subst (IsWritten m written.cert written.key written.ca fs) last (
      write_material-IsWritten m written.cert written.key written.ca w₁ w₂ w₃ d a₁ a₂ a₃ mkdir fs
        fine) in
    (
      rw (left.cert_there, left.key_there) refl,
      rw (left.cert_there, left.key_there, left.ca_there) refl,
    )
