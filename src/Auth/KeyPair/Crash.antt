-- ===== src/Auth/KeyPair/Crash.antt =====
-- What a crash or a failure in WriteMaterial can leave on the disk.
use mathlib.Core.Path.{subst}
use muthur_collector.Prelude.{
  sym, ◌≡◌, refl, inl, inr, ◌⊎◌, ◌∙◌, true, false, Option, none, some, List, [], ◌∷◌, Text, ◌==◌,
  bytes_eq, Bool-cases, ltb, length, if◌then◌else◌, ◌||◌,
}
use muthur_collector.Prelude.All.{All, All-append}
use muthur_collector.Auth.KeyPair.{
  CertMaterial, Files, put, Fate, success, no_temp, no_chmod, no_close, no_rename, no_write, Run,
  Write, write_atomic, then_if_ok, and_then, nothing, write_files, write_material,
}

-- The path `q` holds what it held, or the whole content that is meant for it.
abbrev pub IsWhole : (Option Text → Type 0) → Text → Files → Files → Type 0
IsWhole Meant q fs fs' = (fs' q ≡ fs q) ⊎ Meant (fs' q)

module _ (Meant : Option Text → Type 0) (q : Text) where
  -- A run that leaves `q` whole in every state.
  abbrev RunIsWhole : Files → Run → Type 0
  RunIsWhole fs r = All (IsWhole Meant q fs) r.visited × IsWhole Meant q fs r.last

  IsWhole-trans : (a b c : Files) → IsWhole Meant q a b → IsWhole Meant q b c → IsWhole Meant q a c
  IsWhole-trans a b c h (inr k) = inr k
  IsWhole-trans a b c (inl h) (inl k) = inl (k ∙ h)
  IsWhole-trans a b c (inr h) (inl k) = inr (subst Meant (sym k) h)

  put-other :
      (tmp : Text) (content : Option Text) (fs : Files)
      → (q == tmp) ≡ false
      → put tmp content fs q ≡ fs q
  unfolding put
  put-other tmp content fs h = rw h refl

  put-same :
      (path : Text) (content : Option Text) (fs : Files)
      → (q == path) ≡ true
      → put path content fs q ≡ content
  unfolding put
  put-same path content fs h = rw h refl

  write_atomic-IsWhole :
      (tmp : Text) (fate : Fate) (path content : Text) (fs : Files)
      → (q == tmp) ≡ false
      → ((q == path) ≡ true → Meant (some content))
      → RunIsWhole fs (write_atomic tmp fate path content fs)
  unfolding write_atomic
  write_atomic-IsWhole tmp fate path content fs other meant = go fate
    where
      kept : (c : Option Text) → IsWhole Meant q fs (put tmp c fs)
      kept c = inl (put-other tmp c fs other)

      written : IsWhole Meant q fs (put path (some content) (put tmp none fs))
      written = elim (Bool-cases (q == path)) [
        | inl e ↦
            inr (subst Meant (sym (put-same path (some content) (put tmp none fs) e)) (meant e))
        | inr e ↦
            inl (put-other path (some content) (put tmp none fs) e ∙ put-other tmp none fs other)
      ]

      go : (f : Fate) → RunIsWhole fs (write_atomic tmp f path content fs)
      go success = ((kept (some []), (kept (some content), (written, tt))), written)
      go no_temp = (tt, inl refl)
      go no_chmod = ((kept (some []), (kept (some content), (kept none, tt))), kept none)
      go no_close = ((kept (some []), (kept (some content), (kept none, tt))), kept none)
      go no_rename = ((kept (some []), (kept (some content), (kept none, tt))), kept none)
      go (no_write part) = ((kept (some []), (kept (some part), (kept none, tt))), kept none)

  visited_trans :
      (a b : Files) (states : List Files)
      → IsWhole Meant q a b
      → All (IsWhole Meant q b) states
      → All (IsWhole Meant q a) states
  visited_trans a b [] h k = tt
  visited_trans a b (c ∷ states) h k = (IsWhole-trans a b c h k.0, visited_trans a b states h k.1)

  then_if_ok-IsWhole :
      (error : Option Text) (fs : Files) (r : Run) (next : Files → Run)
      → RunIsWhole fs r
      → ((fs' : Files) → RunIsWhole fs' (next fs'))
      → RunIsWhole fs (then_if_ok error r next)
  then_if_ok-IsWhole (some e) fs r next h k = h
  then_if_ok-IsWhole none fs r next h k = (
    All-append (IsWhole Meant q fs) r.visited (next r.last).visited h.0
        (visited_trans fs r.last (next r.last).visited h.1 (k r.last).0),
    IsWhole-trans fs r.last (next r.last).last h.1 (k r.last).1,
  )

-- The whole content that WriteMaterial means for a path.
abbrev pub IsMeant : CertMaterial → Text → Text → Text → Text → Option Text → Type 0
IsMeant m cert_pem key_pem ca_pem q content =
    (((q == m.cert_file) ≡ true) × (content ≡ some cert_pem))
    ⊎ (((q == m.key_file) ≡ true) × (content ≡ some key_pem))
    ⊎ (((q == m.ca_file) ≡ true) × (content ≡ some ca_pem))

module _ (m : CertMaterial) (cert_pem key_pem ca_pem : Text) (w₁ w₂ w₃ : Write) (q : Text)
    (other₁ : (q == w₁.tmp) ≡ false) (other₂ : (q == w₂.tmp) ≡ false)
    (other₃ : (q == w₃.tmp) ≡ false) where
  write_ca-IsWhole :
      (fs : Files)
      → RunIsWhole (IsMeant m cert_pem key_pem ca_pem q) q fs (
          if ltb 0 (length ca_pem)
          then write_atomic w₃.tmp w₃.fate m.ca_file ca_pem fs
          else nothing fs)
  write_ca-IsWhole fs = elim (Bool-cases (ltb 0 (length ca_pem))) [
    | inl e ↦ rw e (
        write_atomic-IsWhole (IsMeant m cert_pem key_pem ca_pem q) q w₃.tmp w₃.fate m.ca_file ca_pem
          fs other₃ (λ h. inr (inr (h, refl))))
    | inr e ↦ rw e (tt, inl refl)
  ]

  write_files-IsWhole :
      (fs : Files)
      → RunIsWhole
          (IsMeant m cert_pem key_pem ca_pem q)
          q
          fs
          (write_files m cert_pem key_pem ca_pem w₁ w₂ w₃ fs)
  unfolding write_files
  write_files-IsWhole fs =
      let cert = write_atomic w₁.tmp w₁.fate m.cert_file cert_pem fs in
      let key = λ (fs : Files). write_atomic w₂.tmp w₂.fate m.key_file key_pem fs in
      then_if_ok-IsWhole (IsMeant m cert_pem key_pem ca_pem q) q (and_then cert key).error fs
        (and_then cert key) _
        (then_if_ok-IsWhole (IsMeant m cert_pem key_pem ca_pem q) q cert.error fs cert key
          (write_atomic-IsWhole (IsMeant m cert_pem key_pem ca_pem q) q w₁.tmp w₁.fate m.cert_file
            cert_pem fs other₁ (λ h. inl (h, refl)))
          (λ fs'.
            write_atomic-IsWhole (IsMeant m cert_pem key_pem ca_pem q) q w₂.tmp w₂.fate m.key_file
              key_pem fs' other₂ (λ h. inr (inl (h, refl)))))
        write_ca-IsWhole

-- Whichever call fails, and wherever a crash stops WriteMaterial, a file other than the three temporary
-- ones holds what it held before or the whole new content that is meant for it, never a part.
pub write_material-IsWhole :
    (m : CertMaterial) (cert_pem key_pem ca_pem : Text) (mkdir : Option Text) (w₁ w₂ w₃ : Write)
    (fs : Files) (q : Text)
    → (q == w₁.tmp) ≡ false
    → (q == w₂.tmp) ≡ false
    → (q == w₃.tmp) ≡ false
    → All
        (IsWhole (IsMeant m cert_pem key_pem ca_pem q) q fs)
        (write_material m cert_pem key_pem ca_pem mkdir w₁ w₂ w₃ fs).visited
unfolding write_material
write_material-IsWhole m cert_pem key_pem ca_pem none w₁ w₂ w₃ fs q h₁ h₂ h₃ =
    elim (Bool-cases (cert_pem == [] || key_pem == [])) [
      | inl e ↦ rw e tt
      | inr e ↦ rw e (write_files-IsWhole m cert_pem key_pem ca_pem w₁ w₂ w₃ q h₁ h₂ h₃ fs).0
    ]
write_material-IsWhole m cert_pem key_pem ca_pem (some err) w₁ w₂ w₃ fs q h₁ h₂ h₃ =
    elim (Bool-cases (cert_pem == [] || key_pem == [])) [ inl e ↦ rw e tt | inr e ↦ rw e tt ]
