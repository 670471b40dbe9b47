-- ===== src/Pipeline.antt =====
-- internal/pipeline/pipeline.go: one alert, from the webhook to the forwarder.
mod Stages
pub mod Payload
pub mod Limits
pub mod Boundary
pub mod Egress
use muthur_collector.Prelude.{
  ℕ, zero, suc, ◌+◌, ◌%◌, ◌^◌, ◌≡◌, Bool, true, false, not, ◌&&◌, Option, none, some, List, [], ◌∷◌,
  ◌++◌, Text, text, ◌==◌, bytes_eq, length, take, ltb, if◌then◌else◌,
}
use muthur_collector.Prelude.Assoc.{get}
use muthur_collector.Prelude.Int.{ℤ, pos}
use muthur_collector.Prelude.Result.{Result, ok, err}
use muthur_collector.Errors.{Error}
use muthur_collector.Metrics.{Counters, Counted}
use muthur_collector.Metrics.Step.{Step, ◌>>=◌, ◌>>◌, returns, counted}
use muthur_collector.Proto.{
  AlertTarget, MetricSeries, PodMeta, Label, KubernetesEvent, AlertPayload,
}
use muthur_collector.Redact.{Redactor, Stats, redact, redact_string}
use muthur_collector.Redact.Messages.{redact_labels, redact_metrics, redact_events}
use muthur_collector.K8s.{Clientset}
use muthur_collector.K8s.Events.{SortSlice, fetch_events}
use muthur_collector.K8s.Meta.{pod_meta}
use muthur_collector.Resolver.{resolve}
use muthur_collector.Loki
use muthur_collector.Prometheus
use muthur_collector.Forwarder.{World, Run, forward}
use muthur_collector.Webhook.{Alert}

abbrev pub max_events_per_payload : ℕ
max_events_per_payload = 50

pub record LokiSide : Type 0 where
  pub api : Loki.Api
  pub client : Loki.Client

pub record Pipeline (Cert : Type 0) : Type 0 where
  pub cluster_id : Text
  pub grafana_base_url : Text
  -- The client of the resolver; main gives it the same one.
  pub resolver_client : Option Clientset
  pub loki : Option LokiSide
  pub prom_api : Prometheus.Api
  pub prom : Prometheus.Client
  pub k8s_client : Option Clientset
  pub sort_slice : SortSlice
  pub redactor : Redactor
  pub world : World Cert

-- New, with what the clients call; a resolver is its client.
unfoldable pub new_pipeline :
    {Cert : Type 0}
    → Prometheus.Api
    → SortSlice
    → Text
    → Text
    → Option Clientset
    → Option LokiSide
    → Prometheus.Client
    → Option Clientset
    → Redactor
    → World Cert
    → Pipeline Cert
new_pipeline prom_api sort_slice cluster_id grafana_base_url res loki_client prom_client k8s_client
      redactor fwd =
    record {
      cluster_id = cluster_id;
      grafana_base_url = grafana_base_url;
      resolver_client = res;
      loki = loki_client;
      prom_api = prom_api;
      prom = prom_client;
      k8s_client = k8s_client;
      sort_slice = sort_slice;
      redactor = redactor;
      world = fwd;
    }

-- int32(n), as a pattern.
abbrev pub int32 : ℕ → ℕ
int32 n = n % 2 ^ 32

-- The status of an alert, which is "firing" where none is given.
abbrev pub status_or_firing : Text → Text
status_or_firing status = if status == [] then text "firing" else status

abbrev forward_built :
    {Cert : Type 0} → World Cert → Option (AlertPayload × Counters) → Option (AlertPayload × Run)
forward_built w none = none
forward_built w (some (payload, m)) = some (payload, forward w payload m)

module _ {Cert : Type 0} (p : Pipeline Cert) where
  -- The payload before enrichment.
  unfoldable pub base_payload : Alert → AlertTarget → Counted AlertPayload
  unfolding redact_labels get
  base_payload alert target m =
      let (summary, m₁) = redact_string p.redactor (get alert.annotations (text "summary")) m in
      let (description, m₂) =
        redact_string p.redactor (get alert.annotations (text "description")) m₁ in
      let (labels, m₃) = redact_labels p.redactor alert.labels m₂ in
      (
        record {
          cluster_id = p.cluster_id;
          alert_name = get alert.labels (text "alertname");
          severity = get alert.labels (text "severity");
          namespace = get alert.labels (text "namespace");
          pod_name = target.pod_name;
          fired_at = alert.starts_at;
          summary = summary;
          description = description;
          target = target;
          redacted_logs = [];
          metrics = [];
          pod_metas = [];
          labels = labels;
          total_log_lines = 0;
          redacted_log_lines = 0;
          total_replacements = 0;
          status = status_or_firing alert.status;
          grafana_base_url = p.grafana_base_url;
          events = [];
        },
        m₃,
      )

  abbrev with_logs : AlertPayload → (List Text × Stats) × Counters → AlertPayload × Counters
  with_logs payload ((redacted, stats), m) = (
    record payload {
      redacted_logs = redacted;
      total_log_lines = int32 stats.total_lines;
      redacted_log_lines = int32 stats.redacted_lines;
      total_replacements = int32 stats.replacements;
    },
    m,
  )

  abbrev use_logs : AlertPayload → Result Text (List Text) → Counted AlertPayload
  use_logs payload (err e) m = (payload, record m { enrich_errors_loki = m.enrich_errors_loki + 1 })
  use_logs payload (ok []) m = (payload, m)
  use_logs payload (ok (line ∷ lines)) m = with_logs payload (redact p.redactor (line ∷ lines) m)

  abbrev fetch_and_use : AlertPayload → Option (Result Text (List Text)) → Step AlertPayload
  fetch_and_use payload none m = none
  fetch_and_use payload (some logs) m = some (use_logs payload logs m)

  abbrev logs_of : Text → List Text → AlertPayload → LokiSide → Step AlertPayload
  logs_of namespace pods payload side =
      if ltb 0 (length pods) && not (namespace == [])
      then fetch_and_use payload (Loki.fetch_logs side.api side.client namespace pods)
      else returns payload

  abbrev logs_from : Text → List Text → AlertPayload → Option LokiSide → Step AlertPayload
  logs_from namespace pods payload none = returns payload
  logs_from namespace pods payload (some side) = logs_of namespace pods payload side

  unfoldable pub add_logs : Text → List Text → AlertPayload → Step AlertPayload
  add_logs namespace pods payload = logs_from namespace pods payload p.loki

  abbrev use_metrics : AlertPayload → Result Text (List MetricSeries) → Counted AlertPayload
  use_metrics payload (err e) m =
      (payload, record m { enrich_errors_prometheus = m.enrich_errors_prometheus + 1 })
  use_metrics payload (ok series) m =
      let (redacted, m') = redact_metrics p.redactor series m in
      (record payload { metrics = redacted }, m')

  unfoldable pub add_metrics : Text → AlertTarget → AlertPayload → Counted AlertPayload
  unfolding redact_metrics
  add_metrics namespace target payload m =
      use_metrics payload
        (Prometheus.fetch_metrics p.prom_api p.prom target.target_type namespace
          target.resolved_pods target.node)
        m

  -- The loop over the pods; a pod whose metadata cannot be read is skipped.
  unfoldable pub pod_metas : Clientset → Text → List Text → List PodMeta
  pod_metas c namespace [] = []
  pod_metas c namespace (pod ∷ pods) =
      let rest = pod_metas c namespace pods in
      elim (pod_meta c namespace pod) [ err e ↦ rest | ok meta ↦ meta ∷ rest ]

  abbrev metas_from : Text → List Text → AlertPayload → Option Clientset → AlertPayload
  metas_from namespace pods payload none = payload
  metas_from namespace pods payload (some c) = record payload {
    pod_metas = pod_metas c namespace pods;
  }

  unfoldable pub add_metas : Text → List Text → AlertPayload → AlertPayload
  unfolding pod_metas
  add_metas namespace pods payload = metas_from namespace pods payload p.k8s_client

  abbrev use_events :
      Result Text (List KubernetesEvent) → Counters → List KubernetesEvent × Counters
  use_events (err e) m = ([], record m { enrich_errors_events = m.enrich_errors_events + 1 })
  use_events (ok events) m = redact_events p.redactor events m

  -- The loop over the objects.
  unfoldable pub object_events : Clientset → Text → List Text → Counted (List KubernetesEvent)
  unfolding redact_events
  object_events c namespace [] m = ([], m)
  object_events c namespace (name ∷ objects) m =
      let (events, m₁) = use_events (fetch_events p.sort_slice c namespace name) m in
      let (rest, m₂) = object_events c namespace objects m₁ in (events ++ rest, m₂)

  abbrev pub target_objects : AlertTarget → List Text
  target_objects target =
      if target.pvc == [] then target.resolved_pods else target.resolved_pods ++ target.pvc ∷ []

  abbrev pub cap_events : List KubernetesEvent → List KubernetesEvent
  cap_events events =
      if ltb max_events_per_payload (length events)
      then take max_events_per_payload events
      else events

  abbrev events_of : Text → AlertTarget → AlertPayload → Clientset → Counted AlertPayload
  events_of namespace target payload c m =
      if not (namespace == [])
      then (let (events, m') = object_events c namespace (target_objects target) m in
          (record payload { events = cap_events events }, m'))
      else (payload, m)

  abbrev events_from : Text → AlertTarget → AlertPayload → Option Clientset → Counted AlertPayload
  events_from namespace target payload none m = (payload, m)
  events_from namespace target payload (some c) m = events_of namespace target payload c m

  unfoldable pub add_events : Text → AlertTarget → AlertPayload → Counted AlertPayload
  unfolding object_events
  add_events namespace target payload = events_from namespace target payload p.k8s_client

  unfoldable pub enrich : Text → AlertTarget → AlertPayload → Step AlertPayload
  unfolding add_logs add_metrics add_metas add_events
  enrich namespace target payload = do
    with_log_lines ← add_logs namespace target.resolved_pods payload
    with_series ← counted (add_metrics namespace target with_log_lines)
    counted (add_events namespace target (add_metas namespace target.resolved_pods with_series))

  -- The payload that is handed to the forwarder.
  unfoldable pub build_payload : Alert → Step AlertPayload
  unfolding base_payload enrich get
  build_payload alert = do
    payload ← counted (base_payload alert (resolve p.resolver_client alert.labels))
    if status_or_firing alert.status == text "resolved"
        then returns payload
        else enrich (get alert.labels (text "namespace")) (resolve p.resolver_client alert.labels)
            payload

  abbrev pub count_received : Text → Counters → Counters
  count_received status m = record m { alerts_received = status ∷ m.alerts_received }

  -- `none` is a panic before anything is forwarded.
  unfoldable pub process_alert : Alert → Counters → Option (AlertPayload × Run)
  unfolding build_payload
  process_alert alert m =
      forward_built p.world (build_payload alert (count_received (status_or_firing alert.status) m))
