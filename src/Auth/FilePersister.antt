-- ===== src/Auth/FilePersister.antt =====
-- internal/auth/flows.go: FilePersister, over the files of Auth/KeyPair.
pub mod Contents
use muthur_collector.Prelude.{Option, none, some, [], Text, text, bytes_eq}
use muthur_collector.Prelude.Result.{Result, ok, err, ◌>>=◌}
use muthur_collector.Errors.{Error, other}
use muthur_collector.Auth.KeyPair.{CertMaterial, Files, Write, Run, exists_on, write_material}
use muthur_collector.Auth.Persister.{Material, Persister}

-- os.ReadFile of what a path holds, and Write with what befalls its calls.
abbrev read_file : Option Text → Result Error Text
read_file none = err (other (text "no such file"))
read_file (some content) = ok content

abbrev pub content_or_empty : Option Text → Text
content_or_empty none = []
content_or_empty (some content) = content

unfoldable pub read_material : CertMaterial → Files → Result Error Material
read_material m fs = do
  cert ← read_file (fs m.cert_file)
  key ← read_file (fs m.key_file)
  ok (record { cert = cert; key = key; ca = content_or_empty (fs m.ca_file) })

abbrev as_error : Option Text → Option Error
as_error none = none
as_error (some message) = some (other message)

abbrev of_run : Run → Option Error × Files
of_run r = (as_error r.error, r.last)

unfoldable pub file_persister : CertMaterial → Option Text → Write → Write → Write → Persister Files
unfolding read_material write_material
file_persister material mkdir w₁ w₂ w₃ = record {
  exists = λ fs. ok (exists_on fs material);
  read = read_material material;
  write = λ m fs. of_run (write_material material m.cert m.key m.ca mkdir w₁ w₂ w₃ fs);
}
