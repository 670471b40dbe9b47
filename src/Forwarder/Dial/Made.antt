-- ===== src/Forwarder/Dial/Made.antt =====
-- What the constructors of a Forwarder make when they succeed.
use muthur_collector.Prelude.{
  ◌≡◌, refl, Bool, true, false, none, some, [], Text, text, ◌==◌, bytes_eq, if◌then◌else◌,
}
use muthur_collector.Prelude.Result.{Result, ok, err, bind-eq-ok, ◌>>=◌}
use muthur_collector.Errors.{Error}
use muthur_collector.Auth.Crypto.{context, context-eq-ok}
use muthur_collector.Auth.Replay.{strip_scheme}
use muthur_collector.Forwarder.Dial.{Dialled, Dialer, new_signed, new_forwarder, load_ca_pool}

-- A guard that let the code go on.
guard-eq-ok :
    {A : Type 0} (b : Bool) (stop : Error) (r : Result Error A) (a : A)
    → (if b then err stop else r) ≡ ok a
    → (b ≡ false) × (r ≡ ok a)
guard-eq-ok true stop r a e = absurd cc
guard-eq-ok false stop r a e = (refl, e)

module _ {Pool Conn Client Reloader : Type 0} (d : Dialer Pool Conn Client Reloader) where
  abbrev dialled_with : Reloader → Client → Result Error (Dialled Conn Client Reloader)
  dialled_with r client = ok (record { conn = none; signed = some client; reloader = some r })

  -- What NewSigned makes.
  pub new_signed-eq-ok :
      (base_url ca_root_file edge_ca_file : Text) (r : Reloader) (f : Dialled Conn Client Reloader)
      → new_signed d (record {
        base_url = base_url;
        ca_root_file = ca_root_file;
        edge_ca_file = edge_ca_file;
        reloader = some r;
      })
        ≡ ok f
      → (client : Client) × (d.new_signed_client base_url ca_root_file edge_ca_file ≡ ok client)
        × (f ≡ record { conn = none; signed = some client; reloader = some r })
  unfolding new_signed
  new_signed-eq-ok base_url ca_root_file edge_ca_file r f e =
      let made = d.new_signed_client base_url ca_root_file edge_ca_file in
      let (_, rest) =
        guard-eq-ok (base_url == []) _ (context (text "forwarder") made >>= dialled_with r) f e in
      let (client, there, last) =
        bind-eq-ok (context (text "forwarder") made) (dialled_with r) rest in
      (client, context-eq-ok _ made there, cc)

  abbrev with_pool : Text → Reloader → Pool → Result Error (Dialled Conn Client Reloader)
  with_pool target r pool =
      context (text "forwarder: dial") (d.dial (strip_scheme target) pool r)
      >>= (λ conn. ok (record { conn = some conn; signed = none; reloader = none }))

  -- What New makes: a connection that was dialled with the roots of the file and the reloader.
  pub new_forwarder-eq-ok :
      (target ca_root_file : Text) (r : Reloader) (f : Dialled Conn Client Reloader)
      → new_forwarder d (record { target = target; ca_root_file = ca_root_file; reloader = some r })
        ≡ ok f
      → (pool : Pool) × (conn : Conn) × (load_ca_pool d ca_root_file ≡ ok pool)
        × (d.dial (strip_scheme target) pool r ≡ ok conn)
        × (f ≡ record { conn = some conn; signed = none; reloader = none })
  unfolding new_forwarder
  new_forwarder-eq-ok target ca_root_file r f e =
      let pool = context (text "forwarder") (load_ca_pool d ca_root_file) in
      let (_, rest) = guard-eq-ok (target == []) _ (pool >>= with_pool target r) f e in
      let (roots, loaded, dialled) = bind-eq-ok pool (with_pool target r) rest in
      let (conn, made, last) =
        bind-eq-ok (context (text "forwarder: dial") (d.dial (strip_scheme target) roots r))
          (λ conn. ok (record { conn = some conn; signed = none; reloader = none })) dialled in
      (
        roots,
        conn,
        context-eq-ok _ (load_ca_pool d ca_root_file) loaded,
        context-eq-ok _ (d.dial (strip_scheme target) roots r) made,
        cc,
      )
