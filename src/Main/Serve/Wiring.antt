-- ===== src/Main/Serve/Wiring.antt =====
-- What a server that starts is made of.
use mathlib.Core.Path.{subst}
use muthur_collector.Prelude.{
  ◌++◌, ◌<◌, ◌≡◌, refl, sym, ◌↔◌, false, none, some, [], text, ◌==◌, bytes_eq, arith, Bool-cases,
  text_eq_iff, inl, inr, ◌⊎◌,
}
use muthur_collector.Prelude.Result.{Result, ok, bind-eq-ok, ◌>>=◌}
use muthur_collector.Errors.{Error, as_error, as_error-eq-ok}
use muthur_collector.Config.{
  Config, load, cert_file, key_file, mode_signed, mode_mtls, ca_cert_file,
}
use muthur_collector.Config.Loading.{IsUsable, load-IsUsable}
use muthur_collector.Auth.Crypto.{context, context-eq-ok}
use muthur_collector.Auth.Reloader.{Reloader, new_client_reloader, current, Cached}
use muthur_collector.Auth.Reloader.Serving.{new-ComesFrom}
use muthur_collector.Prelude.Int.{ℤ}
use muthur_collector.Redact.FailClosed.{new_redactor-caps}
use muthur_collector.Webhook.{new_handler}
use muthur_collector.Auth.Transport.{Credential}
use muthur_collector.Auth.SignedClient.Endpoints.{Endpoint, new_signed_client}
use muthur_collector.Forwarder.{World}
use muthur_collector.Forwarder.Dial.{Dialled, load_ca_pool}
use muthur_collector.Auth.Replay.{strip_scheme}
use muthur_collector.Forwarder.Dial.Made.{new_signed-eq-ok, new_forwarder-eq-ok}
use muthur_collector.Main.Serve.{
  Services, Server, run_server, init_forwarder, dialer, configured_redactor, configured_loki,
  configured_pipeline, new_logger,
}

current-some :
    {Cert : Type 0} (r : Reloader Cert) (cached : Cached Cert)
    → r ≡ some cached
    → current r ≡ some cached.cert
unfolding current
current-some r cached e = rw e refl

new_handler-IsReady : (n : ℤ) → (0 < (new_handler n).capacity) × ((new_handler n).running ≡ [])
unfolding new_handler
new_handler-IsReady n = ground arith

module _ {Pool Conn RestConfig Key : Type 0} (services : Services Pool Conn RestConfig Key) where
  -- The forwarder of the configured mode.
  pub record IsSigned (cfg : Config) (r : Reloader (Credential Key))
      (f : Dialled Conn (Endpoint Pool) (Reloader (Credential Key))) : Type 0 where
    pub mode : cfg.auth_mode ≡ mode_signed
    pub endpoint : Endpoint Pool
    pub made :
        new_signed_client services.setup cfg.central_agent_url
          (ca_cert_file cfg)
          cfg.signed_edge_ca_file
        ≡ ok endpoint
    pub shape : f ≡ record { conn = none; signed = some endpoint; reloader = some r }

  pub record IsMtls (cfg : Config) (r : Reloader (Credential Key))
      (f : Dialled Conn (Endpoint Pool) (Reloader (Credential Key))) : Type 0 where
    pub mode : cfg.auth_mode ≡ mode_mtls
    pub pool : Pool
    pub conn : Conn
    pub roots : load_ca_pool (dialer services) (ca_cert_file cfg) ≡ ok pool
    pub dialled : services.dial (strip_scheme cfg.central_agent_url) pool r ≡ ok conn
    pub shape : f ≡ record { conn = some conn; signed = none; reloader = none }

  -- A server as the configuration asks for it: over the transport of the mode, which was made with the
  -- reloader of the configured files and so with the certificate they held; whose resolver and pipeline
  -- share one Kubernetes client, with positive caps and a positive bound on the workers, and with Loki
  -- exactly if it is enabled.
  pub record IsWired (cfg : Config) (server : Server Pool Conn Key) : Type 0 where
    pub usable : IsUsable cfg
    pub listens : server.addr ≡ text ":" ++ cfg.port
    pub reloader : Reloader (Credential Key)
    pub cert : Credential Key
    pub opened :
        new_client_reloader
          (cert_file cfg)
          (key_file cfg)
          (services.disk (cert_file cfg) (key_file cfg))
        ≡ ok reloader
    pub on_disk : (services.disk (cert_file cfg) (key_file cfg)).key_pair ≡ ok cert
    pub has_cert : current reloader ≡ some cert
    pub transport : IsSigned cfg reloader server.forwarder ⊎ IsMtls cfg reloader server.forwarder
    pub handler_of : server.handler ≡ new_handler cfg.webhook_max_concurrent
    pub workers : 0 < server.handler.capacity
    pub idle : server.handler.running ≡ []
    pub world_of : (fwd : World (Credential Key)) → (server.pipeline fwd).world ≡ fwd
    pub shared :
        (fwd : World (Credential Key))
        → (server.pipeline fwd).resolver_client ≡ (server.pipeline fwd).k8s_client
    pub redactor_of :
        (fwd : World (Credential Key))
        → (server.pipeline fwd).redactor ≡ configured_redactor services cfg
    pub line_cap : 0 < (configured_redactor services cfg).max_line_bytes
    pub total_cap : 0 < (configured_redactor services cfg).max_total_bytes
    pub string_cap : 0 < (configured_redactor services cfg).max_string_bytes
    pub loki_of :
        (fwd : World (Credential Key)) → (server.pipeline fwd).loki ≡ configured_loki services cfg
    pub loki_iff : (configured_loki services cfg ≡ none) ↔ (cfg.loki_enabled ≡ false)

  init_forwarder-eq-ok :
      (cfg : Config) (r : Reloader (Credential Key))
      (f : Dialled Conn (Endpoint Pool) (Reloader (Credential Key)))
      → IsUsable cfg
      → init_forwarder services cfg r ≡ ok f
      → IsSigned cfg r f ⊎ IsMtls cfg r f
  unfolding init_forwarder
  init_forwarder-eq-ok cfg r f u e = elim (Bool-cases (cfg.auth_mode == mode_signed)) [
    | inl mode ↦
        let (endpoint, made, shape) =
          new_signed-eq-ok (dialer services) cfg.central_agent_url (ca_cert_file cfg)
            cfg.signed_edge_ca_file r f (rw mode at e) in
        inl (record {
          mode = (text_eq_iff cfg.auth_mode mode_signed).0 mode;
          endpoint = endpoint;
          made = made;
          shape = shape;
        })
    | inr mode ↦
        let (pool, conn, roots, dialled, shape) =
          new_forwarder-eq-ok (dialer services) cfg.central_agent_url (ca_cert_file cfg) r f
            (rw mode at e) in
        inr (record {
          mode = (text_eq_iff cfg.auth_mode mode_mtls).0 (ground (arith, u.auth_mode));
          pool = pool;
          conn = conn;
          roots = roots;
          dialled = dialled;
          shape = shape;
        })
  ]

  configured_loki_iff :
      (cfg : Config) → (configured_loki services cfg ≡ none) ↔ (cfg.loki_enabled ≡ false)
  unfolding configured_loki
  configured_loki_iff cfg = ground arith

  -- runServer after each of its steps.
  abbrev server_of :
      Config → Dialled Conn (Endpoint Pool) (Reloader (Credential Key)) → Server Pool Conn Key
  server_of cfg f = record {
    addr = text ":" ++ cfg.port;
    handler = new_handler cfg.webhook_max_concurrent;
    forwarder = f;
    pipeline = configured_pipeline services cfg;
  }

  abbrev after_reloader : Config → Reloader (Credential Key) → Result Error (Server Pool Conn Key)
  after_reloader cfg r =
      context (text "init forwarder") (init_forwarder services cfg r)
      >>= (λ f. ok (server_of cfg f))

  abbrev after_logger : Config → Result Error (Server Pool Conn Key)
  after_logger cfg =
      context (text "load client cert (bootstrap not run?)") (
        as_error (
          new_client_reloader (cert_file cfg) (key_file cfg)
            (services.disk (cert_file cfg) (key_file cfg))))
      >>= after_reloader cfg

  abbrev after_config : Config → Result Error (Server Pool Conn Key)
  after_config cfg =
      context (text "init logger") (new_logger services.zap cfg.log_level)
      >>= (λ logger. after_logger cfg)

  server_of-IsWired :
      (cfg : Config) (r : Reloader (Credential Key))
      (f : Dialled Conn (Endpoint Pool) (Reloader (Credential Key)))
      → IsUsable cfg
      → new_client_reloader
          (cert_file cfg)
          (key_file cfg)
          (services.disk (cert_file cfg) (key_file cfg))
        ≡ ok r
      → init_forwarder services cfg r ≡ ok f
      → IsWired cfg (server_of cfg f)
  unfolding configured_pipeline configured_redactor
  server_of-IsWired cfg r f u opened made =
      let (cached, there, on_disk) =
        new-ComesFrom (cert_file cfg) (key_file cfg) (services.disk (cert_file cfg) (key_file cfg))
          r opened in
      let (line, total, string, _, _, _) =
        new_redactor-caps services.must_compile services.compile cfg.redact_extra_patterns
          cfg.redact_log_stats cfg.redact_max_line_bytes cfg.redact_max_total_bytes
          cfg.redact_max_string_bytes in
      record {
        usable = u;
        listens = refl;
        reloader = r;
        cert = cached.cert;
        opened = opened;
        on_disk = on_disk;
        has_cert = current-some r cached there;
        transport = init_forwarder-eq-ok cfg r f u made;
        handler_of = refl;
        workers = (new_handler-IsReady cfg.webhook_max_concurrent).0;
        idle = (new_handler-IsReady cfg.webhook_max_concurrent).1;
        world_of = λ fwd. refl;
        shared = λ fwd. refl;
        redactor_of = λ fwd. refl;
        line_cap = line;
        total_cap = total;
        string_cap = string;
        loki_of = λ fwd. refl;
        loki_iff = configured_loki_iff cfg;
      }

  -- A server that starts was made from a configuration that Load accepts, and is as that asks. It
  -- listens on the configured port. Its key pair was read from the two configured files into a reloader,
  -- and the forwarder of the configured mode was made with that reloader: over mTLS its connection was
  -- dialled with it, and over the signed transport the forwarder holds it. Resolver and pipeline have one Kubernetes client or
  -- none, the caps and the bound on the workers are positive, the webhook has no alert yet, and Loki is
  -- there exactly if it is enabled.
  pub run_server-IsWired :
      (server : Server Pool Conn Key)
      → run_server services ≡ ok server
      → (cfg : Config) × (load services.environment ≡ ok cfg) × IsWired cfg server
  unfolding run_server
  run_server-IsWired server e =
      let (cfg, loaded, e₁) =
        bind-eq-ok (context (text "load config") (as_error (load services.environment)))
          after_config e in
      let (logger, _, e₂) =
        bind-eq-ok (context (text "init logger") (new_logger services.zap cfg.log_level))
          (λ logger. after_logger cfg) e₁ in
      let opening =
        new_client_reloader (cert_file cfg) (key_file cfg)
          (services.disk (cert_file cfg) (key_file cfg)) in
      let (r, opened, e₃) =
        bind-eq-ok (context (text "load client cert (bootstrap not run?)") (as_error opening))
          (after_reloader cfg) e₂ in
      let (f, made, e₄) =
        bind-eq-ok (context (text "init forwarder") (init_forwarder services cfg r))
          (λ f. ok (server_of cfg f)) e₃ in
      let load_ok =
        as_error-eq-ok _ (context-eq-ok _ (as_error (load services.environment)) loaded) in
      let (_, _, read, usable) = (load-IsUsable services.environment cfg).0 load_ok in
      let same : server_of cfg f ≡ server = cc e₄ in
      (
        cfg,
        load_ok,
        subst (IsWired cfg) same (
            server_of-IsWired cfg r f (subst IsUsable (sym read) usable)
              (as_error-eq-ok _ (context-eq-ok _ (as_error opening) opened))
              (context-eq-ok _ (init_forwarder services cfg r) made)),
      )
