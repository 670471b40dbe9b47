-- ===== src/Auth/KeyPair.antt =====
-- internal/auth/keypair.go: WriteMaterial on a file system. A run keeps every state that the disk goes
-- through, so that a crash can stop at any of them.
pub mod Crash
pub mod Csr
use muthur_collector.Prelude.{
  Bool, ◌||◌, ◌&&◌, Option, none, some, List, [], ◌∷◌, ◌++◌, Text, text, ◌==◌, bytes_eq, ltb,
  length, if◌then◌else◌, true, false,
}

pub record CertMaterial : Type 0 where
  pub dir : Text
  pub cert_file : Text
  pub key_file : Text
  pub ca_file : Text

-- NewMaterial; filepath.Join is written out for a directory that is clean and not the root.
abbrev pub new_material : Text → CertMaterial
new_material dir = record {
  dir = dir;
  cert_file = dir ++ text "/tls.crt";
  key_file = dir ++ text "/tls.key";
  ca_file = dir ++ text "/ca.crt";
}

-- What each path holds.
abbrev pub Files : Type 0
Files = Text → Option Text

unfoldable pub put : Text → Option Text → Files → Files
put path content fs q = if q == path then content else fs q

-- Exists, which only asks for the files.
abbrev pub present : Option Text → Bool
present none = false
present (some content) = true

abbrev pub exists_on : Files → CertMaterial → Bool
exists_on fs m = present (fs m.cert_file) && present (fs m.key_file)

-- The call of writeAtomic that fails, if one does; a failed Write leaves a part of the content behind.
-- The file is then removed, which is assumed to work.
pub data Fate : Type 0 where
  success no_temp no_chmod no_close no_rename : Fate
  no_write : Text → Fate

-- The states that the calls made, the last one again, and the error returned.
pub record Run : Type 0 where
  pub visited : List Files
  pub last : Files
  pub error : Option Text

-- One writeAtomic: the name that CreateTemp chose, and its fate.
pub record Write : Type 0 where
  pub tmp : Text
  pub fate : Fate

abbrev cleaned : Text → Text → Text → Files → Run
cleaned tmp part message fs = record {
  visited = put tmp (some []) fs ∷ put tmp (some part) fs ∷ put tmp none fs ∷ [];
  last = put tmp none fs;
  error = some message;
}

unfoldable pub write_atomic : Text → Fate → Text → Text → Files → Run
unfolding put
write_atomic tmp no_temp path content fs = record {
  visited = [];
  last = fs;
  error = some (text "create temp");
}
write_atomic tmp (no_write part) path content fs = cleaned tmp part (text "write temp") fs
write_atomic tmp no_chmod path content fs = cleaned tmp content (text "chmod temp") fs
write_atomic tmp no_close path content fs = cleaned tmp content (text "close temp") fs
write_atomic tmp no_rename path content fs = cleaned tmp content (text "rename") fs
write_atomic tmp success path content fs = record {
  visited =
      put tmp (some []) fs
      ∷ put tmp (some content) fs
      ∷ put path (some content) (put tmp none fs)
      ∷ [];
  last = put path (some content) (put tmp none fs);
  error = none;
}

-- The second call is made only if the first returned no error.
abbrev pub then_if_ok : Option Text → Run → (Files → Run) → Run
then_if_ok (some e) r next = r
then_if_ok none r next = record (next r.last) { visited = r.visited ++ (next r.last).visited }

abbrev pub and_then : Run → (Files → Run) → Run
and_then r next = then_if_ok r.error r next

abbrev pub nothing : Files → Run
nothing fs = record { visited = []; last = fs; error = none }

abbrev pub refused : Text → Files → Run
refused message fs = record { visited = []; last = fs; error = some message }

-- The three writes; the CA is left alone where none is given.
unfoldable pub write_files : CertMaterial → Text → Text → Text → Write → Write → Write → Files → Run
unfolding write_atomic
write_files m cert_pem key_pem ca_pem w₁ w₂ w₃ fs =
    and_then
      (and_then (write_atomic w₁.tmp w₁.fate m.cert_file cert_pem fs)
        (λ fs. write_atomic w₂.tmp w₂.fate m.key_file key_pem fs))
      (λ fs.
        if ltb 0 (length ca_pem)
        then write_atomic w₃.tmp w₃.fate m.ca_file ca_pem fs
        else nothing fs)

-- `mkdir` is the error of os.MkdirAll, if it has one.
unfoldable pub write_material :
    CertMaterial → Text → Text → Text → Option Text → Write → Write → Write → Files → Run
unfolding write_files
write_material m cert_pem key_pem ca_pem mkdir w₁ w₂ w₃ fs =
    if cert_pem == [] || key_pem == []
    then refused (text "auth: cert and key are required") fs
    else elim mkdir [
      | some e ↦ refused e fs
      | none ↦ write_files m cert_pem key_pem ca_pem w₁ w₂ w₃ fs
    ]
