-- ===== src/Config.antt =====
-- internal/config/config.go: the configuration from the environment. The environment and the parsers of
-- strconv and time are the record `Outside`.
pub mod Loading
pub mod Settings
use muthur_collector.Prelude.{Bool, ◌||◌, not, ◌++◌, Text, text, [], ◌==◌, bytes_eq, if◌then◌else◌}
use muthur_collector.Prelude.Int.{ℤ}
use muthur_collector.Prelude.Quote.{quote}
use muthur_collector.Prelude.Result.{Result, ok, err, ◌>>=◌}

pub record Outside : Type 0 where
  -- os.Getenv, which is empty for a name that is not set
  pub getenv : Text → Text
  -- The values of strconv.Atoi and strconv.ParseBool; their errors are dropped.
  pub atoi : Text → ℤ
  pub parse_bool : Text → Bool
  -- time.ParseDuration, in nanoseconds
  pub parse_duration : Text → Result Text ℤ

pub record Config : Type 0 where
  pub cluster_id : Text
  pub tenant_id : Text
  pub central_agent_url : Text
  pub auth_mode : Text
  pub signed_edge_ca_file : Text
  pub loki_enabled : Bool
  pub loki_url : Text
  pub loki_lookback_minutes : ℤ
  pub loki_max_log_lines : ℤ
  pub prometheus_url : Text
  pub prometheus_lookback_min : ℤ
  pub prometheus_enabled : Bool
  pub grafana_base_url : Text
  pub redact_extra_patterns : Text
  pub redact_log_stats : Bool
  pub redact_max_line_bytes : ℤ
  pub redact_max_total_bytes : ℤ
  pub redact_max_string_bytes : ℤ
  pub webhook_max_concurrent : ℤ
  pub port : Text
  pub log_level : Text
  pub cert_dir : Text
  pub bootstrap_token_file : Text
  pub vendor_ca_file : Text
  pub cert_secret_name : Text
  pub namespace : Text
  pub renew_before : ℤ

abbrev pub mode_mtls : Text
mode_mtls = text "mtls"

abbrev pub mode_signed : Text
mode_signed = text "signed"

unfoldable pub env_or : Outside → Text → Text → Text
env_or outside key fallback =
    if not (outside.getenv key == []) then outside.getenv key else fallback

-- The literal of Load.
unfoldable pub read_config : Outside → ℤ → Config
unfolding env_or
read_config outside renew_before = record {
  cluster_id = outside.getenv (text "CLUSTER_ID");
  tenant_id = outside.getenv (text "TENANT_ID");
  central_agent_url = outside.getenv (text "CENTRAL_AGENT_URL");
  auth_mode = env_or outside (text "AUTH_MODE") mode_mtls;
  signed_edge_ca_file = outside.getenv (text "SIGNED_TLS_CA_FILE");
  loki_enabled = outside.parse_bool (env_or outside (text "LOKI_ENABLED") (text "true"));
  loki_url = env_or outside (text "LOKI_URL") (text "http://loki.monitoring.svc:3100");
  loki_lookback_minutes = outside.atoi (env_or outside (text "LOKI_LOOKBACK_MINUTES") (text "15"));
  loki_max_log_lines = outside.atoi (env_or outside (text "LOKI_MAX_LOG_LINES") (text "200"));
  prometheus_url =
      env_or outside (text "PROMETHEUS_URL") (text "http://prometheus.monitoring.svc:9090");
  prometheus_lookback_min =
      outside.atoi (env_or outside (text "PROMETHEUS_LOOKBACK_MINUTES") (text "30"));
  prometheus_enabled =
      outside.parse_bool (env_or outside (text "PROMETHEUS_ENABLED") (text "true"));
  grafana_base_url = outside.getenv (text "GRAFANA_BASE_URL");
  redact_extra_patterns = outside.getenv (text "REDACT_EXTRA_PATTERNS");
  redact_log_stats = outside.parse_bool (env_or outside (text "REDACT_LOG_STATS") (text "true"));
  redact_max_line_bytes =
      outside.atoi (env_or outside (text "REDACT_MAX_LINE_BYTES") (text "8192"));
  redact_max_total_bytes =
      outside.atoi (env_or outside (text "REDACT_MAX_TOTAL_BYTES") (text "262144"));
  redact_max_string_bytes =
      outside.atoi (env_or outside (text "REDACT_MAX_STRING_BYTES") (text "16384"));
  webhook_max_concurrent =
      outside.atoi (env_or outside (text "WEBHOOK_MAX_CONCURRENT") (text "50"));
  port = env_or outside (text "PORT") (text "8080");
  log_level = env_or outside (text "LOG_LEVEL") (text "info");
  cert_dir = env_or outside (text "CERT_DIR") (text "/secrets/tls/collector");
  bootstrap_token_file =
      env_or outside (text "BOOTSTRAP_TOKEN_FILE") (text "/secrets/bootstrap/token");
  vendor_ca_file = env_or outside (text "VENDOR_CA_FILE") (text "/secrets/vendor-ca/ca.crt");
  cert_secret_name = outside.getenv (text "CERT_SECRET_NAME");
  namespace = outside.getenv (text "POD_NAMESPACE");
  renew_before = renew_before;
}

abbrev read_duration : Text → Result Text ℤ → Result Text ℤ
read_duration raw (err e) = err (text "parse RENEW_BEFORE " ++ quote raw ++ text ": " ++ e)
read_duration raw (ok d) = ok d

unfoldable pub validate : Config → Result Text Config
validate cfg =
    if cfg.cluster_id == []
    then err (text "CLUSTER_ID is required")
    else if cfg.central_agent_url == []
    then err (text "CENTRAL_AGENT_URL is required")
    else if cfg.auth_mode == mode_mtls || cfg.auth_mode == mode_signed
    then ok cfg
    else err (text "unknown AUTH_MODE " ++ quote cfg.auth_mode ++ text " (want mtls or signed)")

unfoldable pub load : Outside → Result Text Config
unfolding validate read_config env_or
load outside = do
  renew_before ←
      read_duration (env_or outside (text "RENEW_BEFORE") (text "48h"))
        (outside.parse_duration (env_or outside (text "RENEW_BEFORE") (text "48h")))
  validate (read_config outside renew_before)

abbrev pub ca_cert_file : Config → Text
ca_cert_file c = c.cert_dir ++ text "/ca.crt"

abbrev pub cert_file : Config → Text
cert_file c = c.cert_dir ++ text "/tls.crt"

abbrev pub key_file : Config → Text
key_file c = c.cert_dir ++ text "/tls.key"
