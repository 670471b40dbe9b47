-- ===== src/Pipeline/Stages.antt =====
-- An invariant of the payload holds at the end of ProcessAlert if each stage keeps it.
use mathlib.Core.Path.{subst}
use muthur_collector.Prelude.{
  ◌≡◌, inl, inr, not, ◌&&◌, Option, none, some, List, [], ◌∷◌, Text, text, ◌==◌, bytes_eq, length,
  ltb, Bool-cases,
}
use muthur_collector.Prelude.Assoc.{get}
use muthur_collector.Prelude.Result.{Result, ok, err}
use muthur_collector.Metrics.{Counters}
use muthur_collector.Proto.{AlertTarget, MetricSeries, AlertPayload, PodMeta}
use muthur_collector.Redact.{redact}
use muthur_collector.K8s.{Clientset}
use muthur_collector.Forwarder.{Run, World}
use muthur_collector.Loki
use muthur_collector.Prometheus
use muthur_collector.Webhook.{Alert}
use muthur_collector.Resolver.{resolve}
use muthur_collector.Redact.Messages.{redact_metrics}
use muthur_collector.Pipeline.{
  Pipeline, LokiSide, base_payload, use_logs, fetch_and_use, logs_of, logs_from, metas_from,
  events_from, use_metrics, add_metrics, add_metas, object_events, target_objects, cap_events,
  events_of, add_events, enrich, build_payload, process_alert, status_or_firing, with_logs,
  pod_metas, forward_built, count_received,
}

-- The value that a step returns, if it returns, satisfies `P`.
abbrev pub Ensures : {A : Type 0} → (A → Type 0) → Option (A × Counters) → Type 0
Ensures P none = Unit
Ensures P (some (a, m)) = P a

-- `P` is kept by each of the four ways in which enrichment changes the payload.
pub record IsStable {Cert : Type 0} (p : Pipeline Cert) (P : AlertPayload → Type 0) : Type 0 where
  pub logs :
      (payload : AlertPayload) (lines : List Text) (m : Counters)
      → P payload
      → P (with_logs p payload (redact p.redactor lines m)).0
  pub metrics :
      (payload : AlertPayload) (series : List MetricSeries) (m : Counters)
      → P payload
      → P (record payload { metrics = (redact_metrics p.redactor series m).0 })
  pub metas :
      (payload : AlertPayload) (metas : List PodMeta)
      → P payload
      → P (record payload { pod_metas = metas })
  pub events :
      (payload : AlertPayload) (c : Clientset) (namespace : Text) (objects : List Text)
      (m : Counters)
      → P payload
      → P (record payload { events = cap_events p (object_events p c namespace objects m).0 })

module _ {Cert : Type 0} (p : Pipeline Cert) {P : AlertPayload → Type 0}
    (stable : IsStable p P) where
  use_logs-keeps :
      (payload : AlertPayload) (logs : Result Text (List Text)) (m : Counters)
      → P payload
      → P (use_logs p payload logs m).0
  use_logs-keeps payload (err e) m h = h
  use_logs-keeps payload (ok []) m h = h
  use_logs-keeps payload (ok (line ∷ lines)) m h = stable.logs payload (line ∷ lines) m h

  fetch_and_use-keeps :
      (payload : AlertPayload) (logs : Option (Result Text (List Text))) (m : Counters)
      → P payload
      → Ensures P (fetch_and_use p payload logs m)
  fetch_and_use-keeps payload none m h = tt
  fetch_and_use-keeps payload (some logs) m h = use_logs-keeps payload logs m h

  logs_of-keeps :
      (namespace : Text) (pods : List Text) (payload : AlertPayload) (side : LokiSide)
      (m : Counters)
      → P payload
      → Ensures P (logs_of p namespace pods payload side m)
  logs_of-keeps namespace pods payload side m h =
      elim (Bool-cases (ltb 0 (length pods) && not (namespace == []))) [
        | inl e ↦
            rw e (
              fetch_and_use-keeps payload (Loki.fetch_logs side.api side.client namespace pods) m h)
        | inr e ↦ rw e h
      ]

  logs_from-keeps :
      (namespace : Text) (pods : List Text) (payload : AlertPayload) (o : Option LokiSide)
      (m : Counters)
      → P payload
      → Ensures P (logs_from p namespace pods payload o m)
  logs_from-keeps namespace pods payload none m h = h
  logs_from-keeps namespace pods payload (some side) m h =
      logs_of-keeps namespace pods payload side m h

  use_metrics-keeps :
      (payload : AlertPayload) (series : Result Text (List MetricSeries)) (m : Counters)
      → P payload
      → P (use_metrics p payload series m).0
  use_metrics-keeps payload (err e) m h = h
  use_metrics-keeps payload (ok series) m h = stable.metrics payload series m h

  metas_from-keeps :
      (namespace : Text) (pods : List Text) (payload : AlertPayload) (o : Option Clientset)
      → P payload
      → P (metas_from p namespace pods payload o)
  metas_from-keeps namespace pods payload none h = h
  metas_from-keeps namespace pods payload (some c) h =
      stable.metas payload (pod_metas p c namespace pods) h

  events_of-keeps :
      (namespace : Text) (target : AlertTarget) (payload : AlertPayload) (c : Clientset)
      (m : Counters)
      → P payload
      → P (events_of p namespace target payload c m).0
  events_of-keeps namespace target payload c m h = elim (Bool-cases (not (namespace == []))) [
    | inl e ↦ rw e (stable.events payload c namespace (target_objects p target) m h)
    | inr e ↦ rw e h
  ]

  events_from-keeps :
      (namespace : Text) (target : AlertTarget) (payload : AlertPayload) (o : Option Clientset)
      (m : Counters)
      → P payload
      → P (events_from p namespace target payload o m).0
  events_from-keeps namespace target payload none m h = h
  events_from-keeps namespace target payload (some c) m h =
      events_of-keeps namespace target payload c m h

  -- Metrics, metadata and events, after the logs.
  abbrev rest_of : Text → AlertTarget → AlertPayload → Counters → AlertPayload × Counters
  rest_of namespace target payload m =
      let (with_series, m') = add_metrics p namespace target payload m in
      add_events p namespace target (add_metas p namespace target.resolved_pods with_series) m'

  rest_of-keeps :
      (namespace : Text) (target : AlertTarget) (payload : AlertPayload) (m : Counters)
      → P payload
      → P (rest_of namespace target payload m).0
  unfolding add_metrics add_metas add_events
  rest_of-keeps namespace target payload m h =
      let series =
        Prometheus.fetch_metrics p.prom_api p.prom target.target_type namespace target.resolved_pods
          target.node in
      events_from-keeps namespace target _ p.k8s_client _ (
        metas_from-keeps namespace target.resolved_pods _ p.k8s_client
          (use_metrics-keeps payload series m h))

  after_logs-keeps :
      (namespace : Text) (target : AlertTarget) (o : Option (AlertPayload × Counters))
      → Ensures P o
      → Ensures P (elim o [ none ↦ none | some (x, m) ↦ some (rest_of namespace target x m) ])
  after_logs-keeps namespace target none h = tt
  after_logs-keeps namespace target (some (x, m)) h = rest_of-keeps namespace target x m h

  enrich-keeps :
      (namespace : Text) (target : AlertTarget) (payload : AlertPayload) (m : Counters)
      → P payload
      → Ensures P (enrich p namespace target payload m)
  unfolding enrich
  enrich-keeps namespace target payload m h =
      after_logs-keeps namespace target
        (logs_from p namespace target.resolved_pods payload p.loki m)
        (logs_from-keeps namespace target.resolved_pods payload p.loki m h)

  build_payload-keeps :
      (alert : Alert) (m : Counters)
      → P (base_payload p alert (resolve p.resolver_client alert.labels) m).0
      → Ensures P (build_payload p alert m)
  unfolding build_payload
  build_payload-keeps alert m h =
      let target = resolve p.resolver_client alert.labels in
      elim (Bool-cases (status_or_firing alert.status == text "resolved")) [
        | inl e ↦ rw e h
        | inr e ↦ rw e (
            enrich-keeps (get alert.labels (text "namespace")) target
              (base_payload p alert target m).0 (base_payload p alert target m).1 h)
      ]

sent-Ensures :
    {Cert : Type 0} (P : AlertPayload → Type 0) (w : World Cert)
    (o : Option (AlertPayload × Counters)) (payload : AlertPayload) (run : Run)
    → Ensures P o
    → forward_built w o ≡ some (payload, run)
    → P payload
sent-Ensures P w none payload run h e = cc e
sent-Ensures P w (some (x, m)) payload run h e = subst P (cc e) h

-- A stable invariant that the payload has before enrichment holds of what is handed to the forwarder.
pub process_alert-keeps :
    {Cert : Type 0} (p : Pipeline Cert) (P : AlertPayload → Type 0) (alert : Alert) (m : Counters)
    (payload : AlertPayload) (run : Run)
    → IsStable p P
    → ((m' : Counters) → P (base_payload p alert (resolve p.resolver_client alert.labels) m').0)
    → process_alert p alert m ≡ some (payload, run)
    → P payload
unfolding process_alert
process_alert-keeps p P alert m payload run stable base e =
    let m' = count_received p (status_or_firing alert.status) m in
    sent-Ensures P p.world (build_payload p alert m') payload run
      (build_payload-keeps p stable alert m' (base m')) e
