-- ===== src/Proto.antt =====
-- proto/alert.pb.go: the messages that the collector sends. A double is its 64-bit pattern, and an
-- int32 that is computed from a count is its pattern modulo 2 ^ 32.
use muthur_collector.Prelude.{ℕ, List, Text}
use muthur_collector.Prelude.Int.{ℤ}

pub record AlertTarget : Type 0 where
  pub target_type : Text
  pub pod_name : Text
  pub deployment : Text
  pub daemonset : Text
  pub node : Text
  pub pvc : Text
  pub namespace : Text
  pub resolved_pods : List Text

pub record DataPoint : Type 0 where
  pub timestamp : ℤ
  pub value : ℕ

pub record MetricSeries : Type 0 where
  pub metric_name : Text
  pub description : Text
  pub unit : Text
  pub points : List DataPoint

pub record PodMeta : Type 0 where
  pub pod_name : Text
  pub memory_limit : Text
  pub memory_request : Text
  pub cpu_limit : Text
  pub cpu_request : Text
  pub node_name : Text
  pub restart_count : ℤ
  pub phase : Text

pub record Label : Type 0 where
  pub name : Text
  pub value : Text

pub record KubernetesEvent : Type 0 where
  pub event_type : Text
  pub reason : Text
  pub message : Text
  pub first_timestamp : ℤ
  pub last_timestamp : ℤ
  pub count : ℤ
  pub involved_object_name : Text

pub record AlertPayload : Type 0 where
  pub cluster_id : Text
  pub alert_name : Text
  pub severity : Text
  pub namespace : Text
  pub pod_name : Text
  pub fired_at : ℤ
  pub summary : Text
  pub description : Text
  pub target : AlertTarget
  pub redacted_logs : List Text
  pub metrics : List MetricSeries
  pub pod_metas : List PodMeta
  pub labels : List Label
  pub total_log_lines : ℕ
  pub redacted_log_lines : ℕ
  pub total_replacements : ℕ
  pub status : Text
  pub grafana_base_url : Text
  pub events : List KubernetesEvent
