-- ===== src/Config/Settings.antt =====
-- Where each setting of a configuration comes from.
use mathlib.Core.Path.{subst}
use muthur_collector.Prelude.{
  ◌≡◌, refl, sym, ap, ◌∙◌, ◌≢◌, ◌↔◌, ◌⊎◌, inl, inr, true, false, ◌||◌, [], Text, text, ◌==◌,
  bytes_eq, text_eq_iff, arith, Bool-cases,
}
use muthur_collector.Prelude.Int.{ℤ}
use muthur_collector.Prelude.Result.{ok}
use muthur_collector.Config.{Outside, Config, mode_mtls, mode_signed, env_or, read_config, load}
use muthur_collector.Config.Loading.{IsUsable, load-IsUsable}

usable_mode :
    (mode : Text)
    → (mode == mode_mtls || mode == mode_signed) ≡ true
    → (mode ≡ mode_mtls) ⊎ (mode ≡ mode_signed)
usable_mode mode h = elim (Bool-cases (mode == mode_mtls)) [
  | inl mtls ↦ inl ((text_eq_iff mode mode_mtls).0 mtls)
  | inr other ↦ inr ((text_eq_iff mode mode_signed).0 (rw other at h))
]

known_mode :
    (mode : Text)
    → (mode ≡ mode_mtls) ⊎ (mode ≡ mode_signed)
    → (mode == mode_mtls || mode == mode_signed) ≡ true
known_mode mode (inl mtls) = let h = (text_eq_iff mode mode_mtls).1 mtls in rw h refl
known_mode mode (inr signed) = let h = (text_eq_iff mode mode_signed).1 signed in ground arith

nonempty : (s : Text) → s ≢ [] → (s == []) ≡ false
nonempty s h = elim (Bool-cases (s == [])) [
  | inl empty ↦ absurd (h ((text_eq_iff s []).0 empty))
  | inr other ↦ other
]

module _ (outside : Outside) where
  -- The variable of this name, or the default if it is not set or empty.
  abbrev pub IsSetting : Text → Text → Text → Type 0
  IsSetting key default value =
      ((outside.getenv key ≡ []) × (value ≡ default))
      ⊎ ((outside.getenv key ≢ []) × (value ≡ outside.getenv key))

  -- Such a text, as it is parsed.
  abbrev pub IsParsed : {A : Type 0} → (Text → A) → Text → Text → A → Type 0
  IsParsed parse key default a = (value : Text) × IsSetting key default value × (a ≡ parse value)

  env_or-IsSetting : (key default : Text) → IsSetting key default (env_or outside key default)
  unfolding env_or
  env_or-IsSetting key default = elim (Bool-cases (outside.getenv key == [])) [
    | inl unset ↦ rw unset (inl ((text_eq_iff (outside.getenv key) []).0 unset, refl))
    | inr set ↦
        rw set (inr (λ empty. cc (set, (text_eq_iff (outside.getenv key) []).1 empty), refl))
  ]

  IsSetting-env_or :
      (key default value : Text) → IsSetting key default value → env_or outside key default ≡ value
  unfolding env_or
  IsSetting-env_or key default value (inl (unset, same)) =
      let empty = (text_eq_iff (outside.getenv key) []).1 unset in rw empty (sym same)
  IsSetting-env_or key default value (inr (set, same)) =
      elim (Bool-cases (outside.getenv key == [])) [
        | inl unset ↦ absurd (set ((text_eq_iff (outside.getenv key) []).0 unset))
        | inr other ↦ rw other (sym same)
      ]

  IsParsed-env_or :
      {A : Type 0} (parse : Text → A) (key default : Text) (a : A)
      → IsParsed parse key default a
      → parse (env_or outside key default) ≡ a
  IsParsed-env_or parse key default a (value, set, same) =
      ap parse (IsSetting-env_or key default value set) ∙ sym same

  -- The settings with their variables and defaults: the two that are required, a mode that exists, and a
  -- duration that parses among them.
  pub record IsLoaded (cfg : Config) : Type 0 where
    pub cluster_id : cfg.cluster_id ≡ outside.getenv (text "CLUSTER_ID")
    pub tenant_id : cfg.tenant_id ≡ outside.getenv (text "TENANT_ID")
    pub central_agent_url : cfg.central_agent_url ≡ outside.getenv (text "CENTRAL_AGENT_URL")
    pub auth_mode : IsSetting (text "AUTH_MODE") (text "mtls") cfg.auth_mode
    pub signed_edge_ca_file : cfg.signed_edge_ca_file ≡ outside.getenv (text "SIGNED_TLS_CA_FILE")
    pub loki_enabled :
        IsParsed outside.parse_bool (text "LOKI_ENABLED") (text "true") cfg.loki_enabled
    pub loki_url : IsSetting (text "LOKI_URL") (text "http://loki.monitoring.svc:3100") cfg.loki_url
    pub loki_lookback_minutes :
        IsParsed outside.atoi (text "LOKI_LOOKBACK_MINUTES") (text "15") cfg.loki_lookback_minutes
    pub loki_max_log_lines :
        IsParsed outside.atoi (text "LOKI_MAX_LOG_LINES") (text "200") cfg.loki_max_log_lines
    pub prometheus_url :
        IsSetting
          (text "PROMETHEUS_URL")
          (text "http://prometheus.monitoring.svc:9090")
          cfg.prometheus_url
    pub prometheus_lookback_min :
        IsParsed outside.atoi
          (text "PROMETHEUS_LOOKBACK_MINUTES")
          (text "30")
          cfg.prometheus_lookback_min
    pub prometheus_enabled :
        IsParsed outside.parse_bool (text "PROMETHEUS_ENABLED") (text "true") cfg.prometheus_enabled
    pub grafana_base_url : cfg.grafana_base_url ≡ outside.getenv (text "GRAFANA_BASE_URL")
    pub redact_extra_patterns :
        cfg.redact_extra_patterns ≡ outside.getenv (text "REDACT_EXTRA_PATTERNS")
    pub redact_log_stats :
        IsParsed outside.parse_bool (text "REDACT_LOG_STATS") (text "true") cfg.redact_log_stats
    pub redact_max_line_bytes :
        IsParsed outside.atoi (text "REDACT_MAX_LINE_BYTES") (text "8192") cfg.redact_max_line_bytes
    pub redact_max_total_bytes :
        IsParsed outside.atoi
          (text "REDACT_MAX_TOTAL_BYTES")
          (text "262144")
          cfg.redact_max_total_bytes
    pub redact_max_string_bytes :
        IsParsed outside.atoi
          (text "REDACT_MAX_STRING_BYTES")
          (text "16384")
          cfg.redact_max_string_bytes
    pub webhook_max_concurrent :
        IsParsed outside.atoi (text "WEBHOOK_MAX_CONCURRENT") (text "50") cfg.webhook_max_concurrent
    pub port : IsSetting (text "PORT") (text "8080") cfg.port
    pub log_level : IsSetting (text "LOG_LEVEL") (text "info") cfg.log_level
    pub cert_dir : IsSetting (text "CERT_DIR") (text "/secrets/tls/collector") cfg.cert_dir
    pub bootstrap_token_file :
        IsSetting
          (text "BOOTSTRAP_TOKEN_FILE")
          (text "/secrets/bootstrap/token")
          cfg.bootstrap_token_file
    pub vendor_ca_file :
        IsSetting (text "VENDOR_CA_FILE") (text "/secrets/vendor-ca/ca.crt") cfg.vendor_ca_file
    pub cert_secret_name : cfg.cert_secret_name ≡ outside.getenv (text "CERT_SECRET_NAME")
    pub namespace : cfg.namespace ≡ outside.getenv (text "POD_NAMESPACE")
    pub renew_before :
        IsParsed outside.parse_duration (text "RENEW_BEFORE") (text "48h") (ok cfg.renew_before)
    pub has_cluster_id : outside.getenv (text "CLUSTER_ID") ≢ []
    pub has_central_agent_url : outside.getenv (text "CENTRAL_AGENT_URL") ≢ []
    pub mode : (cfg.auth_mode ≡ text "mtls") ⊎ (cfg.auth_mode ≡ text "signed")

  read_config-IsLoaded :
      (d : ℤ)
      → outside.parse_duration (env_or outside (text "RENEW_BEFORE") (text "48h")) ≡ ok d
      → IsUsable (read_config outside d)
      → IsLoaded (read_config outside d)
  unfolding read_config
  read_config-IsLoaded d duration usable = record {
    cluster_id = refl;
    tenant_id = refl;
    central_agent_url = refl;
    auth_mode = env_or-IsSetting (text "AUTH_MODE") (text "mtls");
    signed_edge_ca_file = refl;
    loki_enabled = (
      env_or outside (text "LOKI_ENABLED") (text "true"),
      env_or-IsSetting (text "LOKI_ENABLED") (text "true"),
      refl,
    );
    loki_url = env_or-IsSetting (text "LOKI_URL") (text "http://loki.monitoring.svc:3100");
    loki_lookback_minutes = (
      env_or outside (text "LOKI_LOOKBACK_MINUTES") (text "15"),
      env_or-IsSetting (text "LOKI_LOOKBACK_MINUTES") (text "15"),
      refl,
    );
    loki_max_log_lines = (
      env_or outside (text "LOKI_MAX_LOG_LINES") (text "200"),
      env_or-IsSetting (text "LOKI_MAX_LOG_LINES") (text "200"),
      refl,
    );
    prometheus_url =
        env_or-IsSetting (text "PROMETHEUS_URL") (text "http://prometheus.monitoring.svc:9090");
    prometheus_lookback_min = (
      env_or outside (text "PROMETHEUS_LOOKBACK_MINUTES") (text "30"),
      env_or-IsSetting (text "PROMETHEUS_LOOKBACK_MINUTES") (text "30"),
      refl,
    );
    prometheus_enabled = (
      env_or outside (text "PROMETHEUS_ENABLED") (text "true"),
      env_or-IsSetting (text "PROMETHEUS_ENABLED") (text "true"),
      refl,
    );
    grafana_base_url = refl;
    redact_extra_patterns = refl;
    redact_log_stats = (
      env_or outside (text "REDACT_LOG_STATS") (text "true"),
      env_or-IsSetting (text "REDACT_LOG_STATS") (text "true"),
      refl,
    );
    redact_max_line_bytes = (
      env_or outside (text "REDACT_MAX_LINE_BYTES") (text "8192"),
      env_or-IsSetting (text "REDACT_MAX_LINE_BYTES") (text "8192"),
      refl,
    );
    redact_max_total_bytes = (
      env_or outside (text "REDACT_MAX_TOTAL_BYTES") (text "262144"),
      env_or-IsSetting (text "REDACT_MAX_TOTAL_BYTES") (text "262144"),
      refl,
    );
    redact_max_string_bytes = (
      env_or outside (text "REDACT_MAX_STRING_BYTES") (text "16384"),
      env_or-IsSetting (text "REDACT_MAX_STRING_BYTES") (text "16384"),
      refl,
    );
    webhook_max_concurrent = (
      env_or outside (text "WEBHOOK_MAX_CONCURRENT") (text "50"),
      env_or-IsSetting (text "WEBHOOK_MAX_CONCURRENT") (text "50"),
      refl,
    );
    port = env_or-IsSetting (text "PORT") (text "8080");
    log_level = env_or-IsSetting (text "LOG_LEVEL") (text "info");
    cert_dir = env_or-IsSetting (text "CERT_DIR") (text "/secrets/tls/collector");
    bootstrap_token_file =
        env_or-IsSetting (text "BOOTSTRAP_TOKEN_FILE") (text "/secrets/bootstrap/token");
    vendor_ca_file = env_or-IsSetting (text "VENDOR_CA_FILE") (text "/secrets/vendor-ca/ca.crt");
    cert_secret_name = refl;
    namespace = refl;
    renew_before = (
      env_or outside (text "RENEW_BEFORE") (text "48h"),
      env_or-IsSetting (text "RENEW_BEFORE") (text "48h"),
      sym duration,
    );
    has_cluster_id = λ empty.
        cc (usable.cluster_id, (text_eq_iff (outside.getenv (text "CLUSTER_ID")) []).1 empty);
    has_central_agent_url = λ empty. cc (
      usable.central_agent_url,
      (text_eq_iff (outside.getenv (text "CENTRAL_AGENT_URL")) []).1 empty,
    );
    mode = usable_mode (env_or outside (text "AUTH_MODE") mode_mtls) usable.auth_mode;
  }

  IsLoaded-read_config : (cfg : Config) → IsLoaded cfg → read_config outside cfg.renew_before ≡ cfg
  unfolding read_config
  IsLoaded-read_config cfg l = λ i. record {
    cluster_id = sym l.cluster_id i;
    tenant_id = sym l.tenant_id i;
    central_agent_url = sym l.central_agent_url i;
    auth_mode = IsSetting-env_or (text "AUTH_MODE") (text "mtls") cfg.auth_mode l.auth_mode i;
    signed_edge_ca_file = sym l.signed_edge_ca_file i;
    loki_enabled =
        IsParsed-env_or outside.parse_bool (text "LOKI_ENABLED") (text "true") cfg.loki_enabled
          l.loki_enabled i;
    loki_url =
        IsSetting-env_or (text "LOKI_URL") (text "http://loki.monitoring.svc:3100") cfg.loki_url
          l.loki_url i;
    loki_lookback_minutes =
        IsParsed-env_or outside.atoi (text "LOKI_LOOKBACK_MINUTES") (text "15")
          cfg.loki_lookback_minutes l.loki_lookback_minutes i;
    loki_max_log_lines =
        IsParsed-env_or outside.atoi (text "LOKI_MAX_LOG_LINES") (text "200") cfg.loki_max_log_lines
          l.loki_max_log_lines i;
    prometheus_url =
        IsSetting-env_or (text "PROMETHEUS_URL") (text "http://prometheus.monitoring.svc:9090")
          cfg.prometheus_url l.prometheus_url i;
    prometheus_lookback_min =
        IsParsed-env_or outside.atoi (text "PROMETHEUS_LOOKBACK_MINUTES") (text "30")
          cfg.prometheus_lookback_min l.prometheus_lookback_min i;
    prometheus_enabled =
        IsParsed-env_or outside.parse_bool (text "PROMETHEUS_ENABLED") (text "true")
          cfg.prometheus_enabled l.prometheus_enabled i;
    grafana_base_url = sym l.grafana_base_url i;
    redact_extra_patterns = sym l.redact_extra_patterns i;
    redact_log_stats =
        IsParsed-env_or outside.parse_bool (text "REDACT_LOG_STATS") (text "true")
          cfg.redact_log_stats l.redact_log_stats i;
    redact_max_line_bytes =
        IsParsed-env_or outside.atoi (text "REDACT_MAX_LINE_BYTES") (text "8192")
          cfg.redact_max_line_bytes l.redact_max_line_bytes i;
    redact_max_total_bytes =
        IsParsed-env_or outside.atoi (text "REDACT_MAX_TOTAL_BYTES") (text "262144")
          cfg.redact_max_total_bytes l.redact_max_total_bytes i;
    redact_max_string_bytes =
        IsParsed-env_or outside.atoi (text "REDACT_MAX_STRING_BYTES") (text "16384")
          cfg.redact_max_string_bytes l.redact_max_string_bytes i;
    webhook_max_concurrent =
        IsParsed-env_or outside.atoi (text "WEBHOOK_MAX_CONCURRENT") (text "50")
          cfg.webhook_max_concurrent l.webhook_max_concurrent i;
    port = IsSetting-env_or (text "PORT") (text "8080") cfg.port l.port i;
    log_level = IsSetting-env_or (text "LOG_LEVEL") (text "info") cfg.log_level l.log_level i;
    cert_dir =
        IsSetting-env_or (text "CERT_DIR") (text "/secrets/tls/collector") cfg.cert_dir l.cert_dir
          i;
    bootstrap_token_file =
        IsSetting-env_or (text "BOOTSTRAP_TOKEN_FILE") (text "/secrets/bootstrap/token")
          cfg.bootstrap_token_file l.bootstrap_token_file i;
    vendor_ca_file =
        IsSetting-env_or (text "VENDOR_CA_FILE") (text "/secrets/vendor-ca/ca.crt")
          cfg.vendor_ca_file l.vendor_ca_file i;
    cert_secret_name = sym l.cert_secret_name i;
    namespace = sym l.namespace i;
    renew_before = cfg.renew_before;
  }

  IsLoaded-IsUsable : (cfg : Config) → IsLoaded cfg → IsUsable cfg
  IsLoaded-IsUsable cfg l = record {
    cluster_id = nonempty cfg.cluster_id (λ empty. l.has_cluster_id (sym l.cluster_id ∙ empty));
    central_agent_url =
        nonempty cfg.central_agent_url
          (λ empty. l.has_central_agent_url (sym l.central_agent_url ∙ empty));
    auth_mode = known_mode cfg.auth_mode l.mode;
  }

-- Load returns a configuration exactly when this is the one that the environment describes: each setting
-- is that of its variable, or the default of the variable; CLUSTER_ID and CENTRAL_AGENT_URL are set, the
-- mode is mtls or signed, and RENEW_BEFORE, 48h by default, parses.
pub load-IsLoaded :
    (outside : Outside) (cfg : Config) → (load outside ≡ ok cfg) ↔ IsLoaded outside cfg
load-IsLoaded outside cfg = (
  λ loaded.
      let (d, duration, same, usable) = (load-IsUsable outside cfg).0 loaded in
      subst (IsLoaded outside) (sym same) (read_config-IsLoaded outside d duration usable),
  λ l.
      let same = IsLoaded-read_config outside cfg l in
      (load-IsUsable outside cfg).1 (
        cfg.renew_before,
        IsParsed-env_or outside outside.parse_duration (text "RENEW_BEFORE") (text "48h")
            (ok cfg.renew_before) l.renew_before,
        sym same,
        subst IsUsable (sym same) (IsLoaded-IsUsable outside cfg l),
      ),
)
