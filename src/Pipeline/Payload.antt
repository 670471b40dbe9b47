-- ===== src/Pipeline/Payload.antt =====
-- The fields of the payload that identify the alert, and the payload of a resolved alert.
use muthur_collector.Prelude.{◌≡◌, some, [], text, ◌==◌, bytes_eq, refl, true}
use muthur_collector.Prelude.Assoc.{get}
use muthur_collector.Metrics.{Counters}
use muthur_collector.Proto.{AlertPayload}
use muthur_collector.Forwarder.{forward}
use muthur_collector.Webhook.{Alert}
use muthur_collector.Resolver.{resolve}
use muthur_collector.Pipeline.{
  Pipeline, base_payload, build_payload, process_alert, status_or_firing, count_received,
}

-- The fields that are sent as they came, with no redaction.
pub record IsIdentified {Cert : Type 0} (p : Pipeline Cert) (alert : Alert) (payload : AlertPayload)
    : Type 0 where
  pub cluster_id : payload.cluster_id ≡ p.cluster_id
  pub alert_name : payload.alert_name ≡ get alert.labels (text "alertname")
  pub severity : payload.severity ≡ get alert.labels (text "severity")
  pub namespace : payload.namespace ≡ get alert.labels (text "namespace")
  pub target : payload.target ≡ resolve p.resolver_client alert.labels
  pub pod_name : payload.pod_name ≡ payload.target.pod_name
  pub fired_at : payload.fired_at ≡ alert.starts_at
  pub status : payload.status ≡ status_or_firing alert.status

-- A payload with nothing but the alert.
abbrev pub IsBare : AlertPayload → Type 0
IsBare payload =
    (payload.redacted_logs ≡ [])
    × (payload.metrics ≡ [])
    × (payload.pod_metas ≡ [])
    × (payload.events ≡ [])

-- An alert whose status is resolved is forwarded without enrichment: nothing is fetched for it, so
-- whatever Loki, Prometheus and the cluster do, it does not fail, and it carries no logs, metrics,
-- metadata or events.
pub process_alert-resolved :
    {Cert : Type 0} (p : Pipeline Cert) (alert : Alert) (m : Counters)
    → (status_or_firing alert.status == text "resolved") ≡ true
    → let payload =
        base_payload p alert
          (resolve p.resolver_client alert.labels)
          (count_received p (status_or_firing alert.status) m) in
      (process_alert p alert m ≡ some (payload.0, forward p.world payload.0 payload.1))
      × IsBare payload.0
unfolding process_alert build_payload base_payload
process_alert-resolved p alert m e = (rw e refl, (refl, refl, refl, refl))
