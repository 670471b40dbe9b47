-- ===== src/Redact/Messages.antt =====
-- internal/pipeline/pipeline.go: the loops that redact the strings of labels, metrics and events.
use muthur_collector.Prelude.{List, [], ◌∷◌, Text}
use muthur_collector.Metrics.{Counted}
use muthur_collector.Proto.{MetricSeries, Label, KubernetesEvent}
use muthur_collector.Redact.{Redactor, redact_string}

unfoldable pub redact_labels : Redactor → List (Text × Text) → Counted (List Label)
unfolding redact_string
redact_labels r [] m = ([], m)
redact_labels r ((k, v) ∷ labels) m =
    let (name, m₁) = redact_string r k m in
    let (value, m₂) = redact_string r v m₁ in
    let (rest, m₃) = redact_labels r labels m₂ in (record { name = name; value = value } ∷ rest, m₃)

unfoldable pub redact_metrics : Redactor → List MetricSeries → Counted (List MetricSeries)
unfolding redact_string
redact_metrics r [] m = ([], m)
redact_metrics r (s ∷ series) m =
    let (description, m₁) = redact_string r s.description m in
    let (rest, m₂) = redact_metrics r series m₁ in
    (record s { description = description } ∷ rest, m₂)

unfoldable pub redact_events : Redactor → List KubernetesEvent → Counted (List KubernetesEvent)
unfolding redact_string
redact_events r [] m = ([], m)
redact_events r (ev ∷ events) m =
    let (message, m₁) = redact_string r ev.message m in
    let (rest, m₂) = redact_events r events m₁ in (record ev { message = message } ∷ rest, m₂)
