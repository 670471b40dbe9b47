-- ===== src/Pipeline/Boundary.antt =====
-- The redaction boundary: what ProcessAlert sends has gone through the redactor.
use muthur_collector.Pipeline.Stages.{IsStable, process_alert-keeps}
use muthur_collector.Prelude.{◌≡◌, refl, some, List, [], ◌∷◌, Text, bytes_eq, cut-eq-take}
use muthur_collector.Prelude.All.{All, All-append, All-take}
use muthur_collector.Prelude.Result.{Result, ok, err}
use muthur_collector.Metrics.{Counters}
use muthur_collector.Proto.{AlertTarget, MetricSeries, Label, KubernetesEvent, AlertPayload}
use muthur_collector.Redact.{Redactor, redact_string}
use muthur_collector.Redact.Spec.{expected, expected_from, fitting}
use muthur_collector.Redact.Output.{redact-eq-expected}
use muthur_collector.Redact.FailClosed.{clean_string, redact_string-eq-clean_string}
use muthur_collector.K8s.{Clientset}
use muthur_collector.K8s.Events.{fetch_events}
use muthur_collector.Forwarder.{Run}
use muthur_collector.Webhook.{Alert}
use muthur_collector.Resolver.{resolve}
use muthur_collector.Redact.Messages.{redact_labels, redact_metrics, redact_events}
use muthur_collector.Pipeline.{
  Pipeline, max_events_per_payload, base_payload, use_events, object_events, process_alert,
}

-- The text is what the redactor makes of some text.
abbrev pub IsClean : Redactor → Text → Type 0
IsClean r s = (t : Text) × (s ≡ clean_string r t)

-- The free text of a payload: its annotations, label names and values, descriptions of metrics and
-- messages of events, and its log lines, which are those of a redacted batch.
pub record IsSanitized (r : Redactor) (p : AlertPayload) : Type 0 where
  pub summary : IsClean r p.summary
  pub description : IsClean r p.description
  pub labels : All (λ (l : Label). IsClean r l.name × IsClean r l.value) p.labels
  pub metrics : All (λ (s : MetricSeries). IsClean r s.description) p.metrics
  pub events : All (λ (e : KubernetesEvent). IsClean r e.message) p.events
  pub logs : (lines : List Text) × (p.redacted_logs ≡ expected r lines)

redact_string-IsClean : (r : Redactor) (s : Text) (m : Counters) → IsClean r (redact_string r s m).0
redact_string-IsClean r s m = (s, redact_string-eq-clean_string r s m)

redact_labels-IsClean :
    (r : Redactor) (labels : List (Text × Text)) (m : Counters)
    → All (λ (l : Label). IsClean r l.name × IsClean r l.value) (redact_labels r labels m).0
unfolding redact_labels
redact_labels-IsClean r [] m = tt
redact_labels-IsClean r ((k, v) ∷ labels) m =
    let m₁ = (redact_string r k m).1 in
    let m₂ = (redact_string r v m₁).1 in
    ((redact_string-IsClean r k m, redact_string-IsClean r v m₁), redact_labels-IsClean r labels m₂)

redact_metrics-IsClean :
    (r : Redactor) (series : List MetricSeries) (m : Counters)
    → All (λ (s : MetricSeries). IsClean r s.description) (redact_metrics r series m).0
unfolding redact_metrics
redact_metrics-IsClean r [] m = tt
redact_metrics-IsClean r (s ∷ series) m =
    (redact_string-IsClean r s.description m, redact_metrics-IsClean r series _)

redact_events-IsClean :
    (r : Redactor) (events : List KubernetesEvent) (m : Counters)
    → All (λ (e : KubernetesEvent). IsClean r e.message) (redact_events r events m).0
unfolding redact_events
redact_events-IsClean r [] m = tt
redact_events-IsClean r (ev ∷ events) m =
    (redact_string-IsClean r ev.message m, redact_events-IsClean r events _)

module _ {Cert : Type 0} (p : Pipeline Cert) where
  base_payload-IsSanitized :
      (alert : Alert) (target : AlertTarget) (m : Counters)
      → IsSanitized p.redactor (base_payload p alert target m).0
  unfolding base_payload expected_from fitting
  base_payload-IsSanitized alert target m = record {
    summary = redact_string-IsClean p.redactor _ _;
    description = redact_string-IsClean p.redactor _ _;
    labels = redact_labels-IsClean p.redactor alert.labels _;
    metrics = tt;
    events = tt;
    logs = ([], refl);
  }

  use_events-IsClean :
      (events : Result Text (List KubernetesEvent)) (m : Counters)
      → All (λ (e : KubernetesEvent). IsClean p.redactor e.message) (use_events p events m).0
  use_events-IsClean (err e) m = tt
  use_events-IsClean (ok events) m = redact_events-IsClean p.redactor events m

  object_events-IsClean :
      (c : Clientset) (namespace : Text) (objects : List Text) (m : Counters)
      → All
          (λ (e : KubernetesEvent). IsClean p.redactor e.message)
          (object_events p c namespace objects m).0
  unfolding object_events
  object_events-IsClean c namespace [] m = tt
  object_events-IsClean c namespace (name ∷ objects) m =
      let fetched = fetch_events p.sort_slice c namespace name in
      All-append (λ (e : KubernetesEvent). IsClean p.redactor e.message) (use_events p fetched m).0
        (object_events p c namespace objects (use_events p fetched m).1).0
        (use_events-IsClean fetched m)
        (object_events-IsClean c namespace objects (use_events p fetched m).1)

  stages-IsSanitized : IsStable p (IsSanitized p.redactor)
  stages-IsSanitized = record {
    logs = λ payload lines m h. record {
      summary = h.summary;
      description = h.description;
      labels = h.labels;
      metrics = h.metrics;
      events = h.events;
      logs = (lines, redact-eq-expected p.redactor lines m);
    };
    metrics = λ payload series m h. record {
      summary = h.summary;
      description = h.description;
      labels = h.labels;
      metrics = redact_metrics-IsClean p.redactor series m;
      events = h.events;
      logs = h.logs;
    };
    metas = λ payload metas h. record {
      summary = h.summary;
      description = h.description;
      labels = h.labels;
      metrics = h.metrics;
      events = h.events;
      logs = h.logs;
    };
    events = λ payload c namespace objects m h. record {
      summary = h.summary;
      description = h.description;
      labels = h.labels;
      metrics = h.metrics;
      events = rw (cut-eq-take max_events_per_payload) (
          All-take (λ (e : KubernetesEvent). IsClean p.redactor e.message) max_events_per_payload
            (object_events p c namespace objects m).0
            (object_events-IsClean c namespace objects m));
      logs = h.logs;
    };
  }

-- Whatever the alert, the cluster and the monitoring stack hold: in every payload that is handed to the
-- forwarder, the annotations, the label names and values, the descriptions of metrics and the messages
-- of events are texts that the redactor made, and the log lines are a batch that it redacted.
pub process_alert-IsSanitized :
    {Cert : Type 0} (p : Pipeline Cert) (alert : Alert) (m : Counters) (payload : AlertPayload)
    (run : Run)
    → process_alert p alert m ≡ some (payload, run)
    → IsSanitized p.redactor payload
process_alert-IsSanitized p alert m payload run e =
    process_alert-keeps p (IsSanitized p.redactor) alert m payload run (stages-IsSanitized p)
      (λ m'. base_payload-IsSanitized p alert (resolve p.resolver_client alert.labels) m') e
