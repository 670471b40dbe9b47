-- ===== src/Main/Commands/Started.antt =====
-- The server after a bootstrap command that kept its certificate in files.
use muthur_collector.Prelude.{
  ◌≡◌, refl, ◌&&◌, ◌||◌, true, false, inl, inr, Option, none, some, [], ◌∷◌, ◌++◌, Text, text,
  text_eq, ◌==◌, bytes_eq,
}
use muthur_collector.Prelude.Int.{ℤ}
use muthur_collector.Prelude.Result.{Result, ok, err}
use muthur_collector.Config.{Config, load, cert_file, key_file}
use muthur_collector.Auth.KeyPair.{Files, new_material, present}
use muthur_collector.Auth.FilePersister.{file_persister}
use muthur_collector.Auth.Reloader.{Disk, Reloader, cached_or, new_client_reloader}
use muthur_collector.Auth.Reloader
use muthur_collector.Auth.Flows.Success.{run_bootstrap-IsLeft}
use muthur_collector.Main.{in_files, main_bootstrap, bootstrap_flow}
use muthur_collector.Main.Commands.{Host, Stored, bootstrap_command}
use muthur_collector.Main.Commands.Again.{store_of, HasApart, open_store-cases, files-provisioned}

module _ {Cert : Type 0} (x509_key_pair : Text → Text → Result Text Cert) (mtime : Text → ℤ) where
  abbrev stat : Text → Option Text → Result Text ℤ
  stat path none = err (text "no such file")
  stat path (some content) = ok (mtime path)

  abbrev key_pair_of : Option Text → Option Text → Result Text Cert
  key_pair_of none key = err (text "no such file")
  key_pair_of (some cert) none = err (text "no such file")
  key_pair_of (some cert) (some key) = x509_key_pair cert key

  -- os.Stat and tls.LoadX509KeyPair on files that nobody changes.
  abbrev pub disk_of : Text → Text → Files → Disk Cert
  disk_of cert_path key_path fs = record {
    first_stat = stat cert_path (fs cert_path);
    load_stat = stat cert_path (fs cert_path);
    key_pair = key_pair_of (fs cert_path) (fs key_path);
  }

  abbrev pub started_with : ℤ → Result Text Cert → Result Text (Reloader Cert)
  started_with t (err e) = err e
  started_with t (ok cert) = ok (some (record { cert = cert; mtime = t }))

  new_client_reloader-pair :
      (cert_path key_path : Text) (first : Result Text ℤ) (t : ℤ) (pair : Result Text Cert)
      → (cert_path == [] || key_path == []) ≡ false
      → new_client_reloader cert_path key_path
          (record { first_stat = first; load_stat = ok t; key_pair = pair })
        ≡ started_with t pair
  unfolding new_client_reloader Reloader.load cached_or
  new_client_reloader-pair cert_path key_path first t (ok cert) paths = rw paths refl
  new_client_reloader-pair cert_path key_path first t (err e) paths = rw paths refl

  new_client_reloader-started :
      (cert_path key_path cert key : Text) (fs : Files)
      → (cert_path == [] || key_path == []) ≡ false
      → fs cert_path ≡ some cert
      → fs key_path ≡ some key
      → new_client_reloader cert_path key_path (disk_of cert_path key_path fs)
        ≡ started_with (mtime cert_path) (x509_key_pair cert key)
  new_client_reloader-started cert_path key_path cert key fs paths c k =
      rw (c, k)
        (new_client_reloader-pair cert_path key_path (ok (mtime cert_path)) (mtime cert_path)
          (x509_key_pair cert key) paths)

named_path : (dir : Text) → (dir ++ text "/tls.crt" == [] || dir ++ text "/tls.key" == []) ≡ false
unfolding text_eq
named_path [] = refl
named_path (c ∷ dir) = refl

exists_on-contents :
    (cert key : Option Text)
    → (present cert && present key) ≡ true
    → (c : Text) × (k : Text) × (cert ≡ some c) × (key ≡ some k)
exists_on-contents none key h = absurd cc
exists_on-contents (some c) none h = absurd cc
exists_on-contents (some c) (some k) h = (c, k, refl, refl)

-- After a bootstrap command that succeeded and keeps its certificate in files, with temporary files of
-- other names, a server with the same configuration finds both files, so that its reloader starts
-- exactly if they hold a certificate with its key, and then with that certificate.
pub bootstrap_command-starts :
    {Cred Cert : Type 0} (host : Host Cred) (s : Stored) (cfg : Config)
    (x509_key_pair : Text → Text → Result Text Cert) (mtime : Text → ℤ)
    → load host.environment ≡ ok cfg
    → store_of cfg ≡ in_files (new_material cfg.cert_dir)
    → HasApart host (in_files (new_material cfg.cert_dir))
    → let fs = (bootstrap_command host s).stored.files in
      (bootstrap_command host s).error ≡ none
      → (cert : Text) × (key : Text) × (fs (cert_file cfg) ≡ some cert)
        × (fs (key_file cfg) ≡ some key)
        × (new_client_reloader
              (cert_file cfg)
              (key_file cfg)
              (disk_of x509_key_pair mtime (cert_file cfg) (key_file cfg) fs)
            ≡ started_with x509_key_pair mtime (mtime (cert_file cfg)) (x509_key_pair cert key))
unfolding bootstrap_command main_bootstrap bootstrap_flow file_persister
bootstrap_command-starts host s cfg x509_key_pair mtime loaded kept apart fine =
    elim (open_store-cases host cfg loaded) [
      | inr (e, failed) ↦ absurd (let stop : some e ≡ none = rw failed at fine in cc stop)
      | inl opened ↦
          rw (opened, kept)
            (let m = new_material cfg.cert_dir in
              let p = file_persister m host.mkdir host.cert_write host.key_write host.ca_write in
              let r = main_bootstrap host.outside cfg p s.files in
              let there : p.exists r.stored ≡ ok true =
                files-provisioned host host cfg s m r.stored apart (
                  run_bootstrap-IsLeft host.outside p (bootstrap_flow host.outside cfg p) s.files
                    refl (rw (opened, kept) at fine)) in
              let (cert, key, c, k) =
                exists_on-contents (r.stored m.cert_file) (r.stored m.key_file) (cc there) in
              (
                cert,
                key,
                c,
                k,
                new_client_reloader-started x509_key_pair mtime (cert_file cfg) (key_file cfg) cert
                    key r.stored (named_path cfg.cert_dir) c k,
              ))
    ]
