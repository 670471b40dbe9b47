-- ===== src/Examples/Startup.antt =====
-- Runs of the configuration and of the certificate reloader.
use muthur_collector.Prelude.All.{All}
use muthur_collector.Auth.KeyPair.Crash.{IsWhole, IsMeant, write_material-IsWhole}
use muthur_collector.Auth.KeyPair.{
  CertMaterial, Run, new_material, success, no_rename, write_material,
}
use muthur_collector.Prelude.{
  ℕ, ◌≡◌, refl, ◌&&◌, ◌↔◌, some, [], ◌∷◌, text, text_eq, ◌==◌, bytes_eq, true, if◌then◌else◌, none,
}
use muthur_collector.Prelude.Hex.{hex}
use muthur_collector.Prelude.Int.{ℤ, pos}
use muthur_collector.Prelude.Result.{ok, err}
use muthur_collector.Auth.Reloader.{
  Disk, Cached, get_client_certificate, new_client_reloader, current,
}
use muthur_collector.Auth.Reloader.Serving.{
  is_err, found_newer, get_client_certificate-refuses, after_handshakes, ComesFrom,
  reloader-ComesFrom,
}
use muthur_collector.Auth.Replay.{strip_scheme, fresh_nonce}
use muthur_collector.Config
use muthur_collector.Config.{Outside, Config, read_config}
use muthur_collector.Config.Loading.{IsUsable, parsed, load-IsUsable}
use muthur_collector.Config.Settings.{IsLoaded, load-IsLoaded}

strip_scheme_run : strip_scheme (text "https://brain:443") ≡ text "brain:443"
unfolding strip_scheme text_eq
strip_scheme_run = refl

-- A disk that holds certificate `cert` since `mtime`; certificates are numbers.
abbrev disk_at : ℕ → ℕ → Disk ℕ
disk_at mtime cert = record {
  first_stat = ok (pos mtime);
  load_stat = ok (pos mtime);
  key_pair = ok cert;
}

-- The file is newer at the first Stat and gone at the second.
abbrev vanishing : Disk ℕ
vanishing = record {
  first_stat = ok (pos 9);
  load_stat = err (text "no such file");
  key_pair = err (text "no such file");
}

abbrev first_cert : Cached ℕ
first_cert = record { cert = 7; mtime = pos 5 }

get_client_certificate-refuses_example :
    is_err (get_client_certificate vanishing (some first_cert)).0
    ≡ (found_newer first_cert vanishing.first_stat && is_err vanishing.load_stat)
get_client_certificate-refuses_example = get_client_certificate-refuses vanishing first_cert

started : new_client_reloader (text "tls.crt") (text "tls.key") (disk_at 5 7) ≡ ok (some first_cert)
unfolding new_client_reloader text_eq
started = refl

reloader-ComesFrom_example :
    (cert : ℕ) × (current (after_handshakes (vanishing ∷ disk_at 9 8 ∷ []) (some first_cert))
      ≡ some cert)
    × ComesFrom (disk_at 5 7 ∷ vanishing ∷ disk_at 9 8 ∷ []) cert
reloader-ComesFrom_example =
    reloader-ComesFrom (text "tls.crt") (text "tls.key") (disk_at 5 7)
      (vanishing ∷ disk_at 9 8 ∷ []) (some first_cert) started

abbrev outside : Outside
outside = record {
  getenv = λ key. if key == text "AUTH_MODE" then text "signed" else text "x";
  atoi = λ s. pos 0;
  parse_bool = λ s. true;
  parse_duration = λ s. ok (pos 1);
}

load-IsUsable_run : (Config.load outside ≡ ok (read_config outside (pos 1))) ↔ (
    (d : ℤ) × (parsed outside ≡ ok d)
    × (read_config outside (pos 1) ≡ read_config outside d)
    × IsUsable (read_config outside d))
load-IsUsable_run = load-IsUsable outside (read_config outside (pos 1))

load-IsLoaded_example :
    (Config.load outside ≡ ok (read_config outside (pos 1)))
    ↔ IsLoaded outside (read_config outside (pos 1))
load-IsLoaded_example = load-IsLoaded outside (read_config outside (pos 1))

outside-IsLoaded : IsLoaded outside (read_config outside (pos 1))
unfolding Config.load text_eq
outside-IsLoaded = (load-IsLoaded outside (read_config outside (pos 1))).0 refl

abbrev material : CertMaterial
material = new_material (text "/c")

-- The certificate is renamed and the rename of the key fails.
abbrev half : Run
half =
    write_material material (text "new cert") (text "new key") [] none
      (record { tmp = text "t1"; fate = success }) (record { tmp = text "t2"; fate = no_rename })
      (record { tmp = text "t3"; fate = success }) (λ path. some (text "old"))

write_material-IsWhole_example :
    All
      (IsWhole
        (IsMeant material (text "new cert") (text "new key") [] (text "/c/tls.key"))
        (text "/c/tls.key")
        (λ path. some (text "old")))
      half.visited
unfolding text_eq
write_material-IsWhole_example =
    write_material-IsWhole material (text "new cert") (text "new key") [] none
      (record { tmp = text "t1"; fate = success }) (record { tmp = text "t2"; fate = no_rename })
      (record { tmp = text "t3"; fate = success }) (λ path. some (text "old")) (text "/c/tls.key")
      refl refl refl

-- What is left is a new certificate with the old key.
mismatched_pair :
    (half.last (text "/c/tls.crt") ≡ some (text "new cert"))
    × (half.last (text "/c/tls.key") ≡ some (text "old"))
unfolding write_material text_eq
mismatched_pair = (refl, refl)

fresh_nonce_run : fresh_nonce (some (0 ∷ 171 ∷ [])) ≡ some (text "00ab")
unfolding fresh_nonce hex
fresh_nonce_run = refl
