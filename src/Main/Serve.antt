-- ===== src/Main/Serve.antt =====
-- cmd/collector/main.go: runServer, from the environment to the server that is about to listen. What the
-- constructors call is the record `Services`.
pub mod Alerts
pub mod Wiring
use muthur_collector.Prelude.{
  Bool, Option, none, some, ◌++◌, Text, text, ◌==◌, bytes_eq, if◌then◌else◌,
}
use muthur_collector.Prelude.Int.{ℤ, pos}
use muthur_collector.Prelude.Result.{Result, ok, err, ◌>>=◌}
use muthur_collector.Errors.{Error, as_error}
use muthur_collector.Config.{Config, load, ca_cert_file, cert_file, key_file, mode_signed}
use muthur_collector.Config
use muthur_collector.Redact.{Redactor, new_redactor}
use muthur_collector.Redact.Patterns.{Regexp}
use muthur_collector.K8s.{Clientset}
use muthur_collector.K8s.Client.{ClientGo, new_k8s_client}
use muthur_collector.K8s.Events.{SortSlice}
use muthur_collector.Loki
use muthur_collector.Prometheus
use muthur_collector.Auth.Crypto.{context}
use muthur_collector.Auth.Reloader.{Disk, Reloader, new_client_reloader}
use muthur_collector.Auth.Transport.{Credential}
use muthur_collector.Auth.SignedClient.Endpoints.{Setup, Endpoint, new_signed_client}
use muthur_collector.Forwarder.{World}
use muthur_collector.Forwarder.Dial.{
  Dialer, DialConfig, SignedConfig, Dialled, new_forwarder, new_signed,
}
use muthur_collector.Pipeline.{LokiSide, Pipeline, new_pipeline}
use muthur_collector.Webhook.{Gate, new_handler}

-- zapcore.Level.UnmarshalText, and Build of the production configuration at a level
pub record Zap : Type 0 where
  pub unmarshal_level : Text → Result Error ℤ
  pub build : ℤ → Result Error (Unit {0})

-- zapcore.InfoLevel
abbrev info_level : ℤ
info_level = pos 0

abbrev level_or_info : Result Error ℤ → ℤ
level_or_info (err e) = info_level
level_or_info (ok lvl) = lvl

unfoldable pub new_logger : Zap → Text → Result Error (Unit {0})
new_logger zap level = zap.build (level_or_info (zap.unmarshal_level level))

pub record Services (Pool Conn RestConfig Key : Type 0) : Type 0 where
  pub environment : Config.Outside
  pub zap : Zap
  pub client_go : ClientGo RestConfig
  pub loki_api : Loki.Api
  pub prom_api : Prometheus.Api
  pub sort_slice : SortSlice
  -- regexp.MustCompile and regexp.Compile
  pub must_compile : Text → Regexp
  pub compile : Text → Option Regexp
  -- what the disk answers for the two files of the key pair, by their paths, while the reloader is made
  pub disk : Text → Text → Disk (Credential Key)
  pub setup : Setup Pool
  -- grpc.NewClient, and Close of a connection
  pub dial : Text → Pool → Reloader (Credential Key) → Result Error Conn
  pub close : Conn → Option Error

-- What listens: the pipeline is that of a forwarder whose sends meet a given world.
pub record Server (Pool Conn Key : Type 0) : Type 0 where
  pub addr : Text
  pub handler : Gate
  pub forwarder : Dialled Conn (Endpoint Pool) (Reloader (Credential Key))
  pub pipeline : World (Credential Key) → Pipeline (Credential Key)

-- The client is optional: an error is logged.
abbrev pub client_or_none : Result Error Clientset → Option Clientset
client_or_none (err e) = none
client_or_none (ok client) = some client

module _ {Pool Conn RestConfig Key : Type 0} (services : Services Pool Conn RestConfig Key) where
  abbrev dialer : Dialer Pool Conn (Endpoint Pool) (Reloader (Credential Key))
  dialer = record {
    read_file = services.setup.read_file;
    certs_from_pem = services.setup.certs_from_pem;
    dial = services.dial;
    new_signed_client = new_signed_client services.setup;
    close = services.close;
  }

  unfoldable pub init_forwarder :
      Config
      → Reloader (Credential Key)
      → Result Error (Dialled Conn (Endpoint Pool) (Reloader (Credential Key)))
  unfolding new_forwarder new_signed new_signed_client
  init_forwarder cfg reloader =
      if cfg.auth_mode == mode_signed
      then new_signed dialer (record {
        base_url = cfg.central_agent_url;
        ca_root_file = ca_cert_file cfg;
        edge_ca_file = cfg.signed_edge_ca_file;
        reloader = some reloader;
      })
      else new_forwarder dialer (record {
        target = cfg.central_agent_url;
        ca_root_file = ca_cert_file cfg;
        reloader = some reloader;
      })

  unfoldable pub configured_loki : Config → Option LokiSide
  unfolding Loki.new_loki_client
  configured_loki cfg =
      if cfg.loki_enabled
      then some (record {
        api = services.loki_api;
        client = Loki.new_loki_client cfg.loki_url cfg.loki_lookback_minutes cfg.loki_max_log_lines;
      })
      else none

  unfoldable pub configured_redactor : Config → Redactor
  unfolding new_redactor
  configured_redactor cfg =
      new_redactor services.must_compile services.compile cfg.redact_extra_patterns
        cfg.redact_log_stats cfg.redact_max_line_bytes cfg.redact_max_total_bytes
        cfg.redact_max_string_bytes

  unfoldable pub configured_pipeline : Config → World (Credential Key) → Pipeline (Credential Key)
  unfolding configured_loki configured_redactor new_pipeline new_k8s_client
  configured_pipeline cfg fwd =
      let k8s_client = client_or_none (new_k8s_client services.client_go) in
      new_pipeline services.prom_api services.sort_slice cfg.cluster_id cfg.grafana_base_url
        k8s_client (configured_loki cfg)
        (Prometheus.new_prometheus_client cfg.prometheus_url cfg.prometheus_lookback_min
          cfg.prometheus_enabled)
        k8s_client (configured_redactor cfg) fwd

  unfoldable pub run_server : Result Error (Server Pool Conn Key)
  unfolding load init_forwarder configured_pipeline new_handler
  run_server = do
    cfg ← context (text "load config") (as_error (load services.environment))
    logger ← context (text "init logger") (new_logger services.zap cfg.log_level)
    reloader ← context (text "load client cert (bootstrap not run?)") (
        as_error (
          new_client_reloader (cert_file cfg) (key_file cfg)
            (services.disk (cert_file cfg) (key_file cfg))))
    fwd ← context (text "init forwarder") (init_forwarder cfg reloader)
    ok (record {
      addr = text ":" ++ cfg.port;
      handler = new_handler cfg.webhook_max_concurrent;
      forwarder = fwd;
      pipeline = configured_pipeline cfg;
    })
