-- ===== src/Examples/Commands.antt =====
-- Runs of the commands over files.
use muthur_collector.Prelude.{
  ℕ, ◌≡◌, refl, ◌||◌, true, none, some, [], Text, text, text_eq, ◌==◌, bytes_eq, if◌then◌else◌,
  length,
}
use muthur_collector.Prelude.Int.{pos}
use muthur_collector.Prelude.Result.{Result, ok, err}
use muthur_collector.Errors.{other}
use muthur_collector.Config
use muthur_collector.Config.{Config, read_config, cert_file, key_file}
use muthur_collector.Auth.KeyPair.{Files, Write, new_material, success}
use muthur_collector.Auth.Persister.{Material}
use muthur_collector.Auth.FilePersister.{file_persister}
use muthur_collector.Auth.FilePersister.Contents.{
  IsApart, new_material-IsDistinct, file_persister-round_trip,
}
use muthur_collector.Auth.Reloader.{new_client_reloader}
use muthur_collector.Main.{in_files}
use muthur_collector.Main.Commands.{Host, Stored, bootstrap_command}
use muthur_collector.Main.Commands.Again.{HasApart, store_of, bootstrap_command-idempotent}
use muthur_collector.Main.Commands.Started.{disk_of, started_with, bootstrap_command-starts}
use muthur_collector.Examples.Enrolment.{outside, no_faults, get_refused}

abbrev environment : Config.Outside
environment = record {
  getenv = λ key.
      if key == text "POD_NAMESPACE" || key == text "CERT_SECRET_NAME"
      then []
      else if key == text "AUTH_MODE"
      then text "signed"
      else text "x";
  atoi = λ s. pos 7;
  parse_bool = λ s. true;
  parse_duration = λ s. ok (pos 1);
}

abbrev cfg : Config
cfg = read_config environment (pos 1)

abbrev temporary : Text → Write
temporary name = record { tmp = name; fate = success }

abbrev host : Host ℕ
host = record {
  environment = environment;
  zap = record { unmarshal_level = λ s. err (other s); build = λ level. ok tt };
  client_error = none;
  outside = outside;
  faults = no_faults;
  mkdir = none;
  cert_write = temporary (text "x/tls.crt.tmp.1");
  key_write = temporary (text "x/tls.key.tmp.2");
  ca_write = temporary (text "x/ca.crt.tmp.3");
}

abbrev blank : Stored
blank = record { secret = none; files = λ path. none }

environment_read : Config.load environment ≡ ok cfg
unfolding Config.load text_eq
environment_read = refl

cert_write-IsApart : IsApart (new_material cfg.cert_dir) host.cert_write
unfolding read_config text_eq
cert_write-IsApart = record { cert = refl; key = refl; ca = refl }

key_write-IsApart : IsApart (new_material cfg.cert_dir) host.key_write
unfolding read_config text_eq
key_write-IsApart = record { cert = refl; key = refl; ca = refl }

ca_write-IsApart : IsApart (new_material cfg.cert_dir) host.ca_write
unfolding read_config text_eq
ca_write-IsApart = record { cert = refl; key = refl; ca = refl }

host-HasApart : HasApart host (in_files (new_material cfg.cert_dir))
host-HasApart =
    (new_material-IsDistinct cfg.cert_dir, cert_write-IsApart, key_write-IsApart, ca_write-IsApart)

kept_in_files : store_of cfg ≡ in_files (new_material cfg.cert_dir)
unfolding read_config text_eq
kept_in_files = refl

first_run : (bootstrap_command host blank).error ≡ none
unfolding bootstrap_command text_eq file_persister
first_run = refl

-- The second time the disk is full and there is no token; it does not matter.
abbrev later : Host ℕ
later = record host {
  client_error = some (other (text "no cluster"));
  mkdir = some (text "disk full");
  faults = get_refused;
}

bootstrap_command-idempotent_example :
    let r = bootstrap_command host blank in
    let r' = bootstrap_command later r.stored in (r'.calls ≡ []) × (r'.stored ≡ r.stored)
bootstrap_command-idempotent_example =
    bootstrap_command-idempotent host later blank cfg refl environment_read
      (rw kept_in_files host-HasApart) first_run

abbrev pair : Text → Text → Result Text ℕ
pair cert key = ok (length cert)

bootstrap_command-starts_example :
    let fs = (bootstrap_command host blank).stored.files in
    (cert : Text) × (key : Text) × (fs (cert_file cfg) ≡ some cert)
    × (fs (key_file cfg) ≡ some key)
    × (new_client_reloader
          (cert_file cfg)
          (key_file cfg)
          (disk_of pair (λ path. pos 3) (cert_file cfg) (key_file cfg) fs)
        ≡ started_with pair (λ path. pos 3) (pos 3) (pair cert key))
bootstrap_command-starts_example =
    bootstrap_command-starts host blank cfg pair (λ path. pos 3) environment_read kept_in_files
      host-HasApart first_run

abbrev material : Material
material = record { cert = text "leaf"; key = text "key"; ca = [] }

abbrev written : Files
written =
    ((file_persister (new_material cfg.cert_dir) none host.cert_write host.key_write
        host.ca_write).write
      material blank.files).1

write_succeeds :
    (file_persister
        (new_material cfg.cert_dir)
        none
        host.cert_write
        host.key_write
        host.ca_write).write
      material blank.files
    ≡ (none, written)
unfolding file_persister text_eq read_config
write_succeeds = refl

file_persister-round_trip_example :
    let p =
      file_persister
        (new_material cfg.cert_dir)
        none
        host.cert_write
        host.key_write
        host.ca_write in
    (p.exists written ≡ ok true) × (p.read written ≡ ok material)
file_persister-round_trip_example =
    file_persister-round_trip (new_material cfg.cert_dir) none host.cert_write host.key_write
      host.ca_write material blank.files written (new_material-IsDistinct cfg.cert_dir)
      cert_write-IsApart key_write-IsApart ca_write-IsApart write_succeeds
