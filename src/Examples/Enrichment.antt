-- ===== src/Examples/Enrichment.antt =====
-- Runs of the resolver, the clients and the pipeline.
use muthur_collector.Redact.{redact}
use muthur_collector.Prelude.{
  ◌≤◌, ◌≡◌, refl, ◌≢◌, Option, none, some, List, [], ◌∷◌, map, text, bytes_eq, length, take,
  text_eq, Text, ◌↔◌, arith,
}
use muthur_collector.Prelude.All.{All, Among}
use muthur_collector.Prelude.Assoc.{get}
use muthur_collector.Prelude.Int.{pos, negsuc}
use muthur_collector.Prelude.Result.{ok, err}
use muthur_collector.Metrics.{Counters, zero_counters}
use muthur_collector.Proto.{AlertPayload, MetricSeries, KubernetesEvent}
use muthur_collector.K8s.Events.{convert_events, fetch_events}
use muthur_collector.K8s.Events.Newest.{
  IsNewest, IsNormal, fetch_events-IsNewest, convert_events-IsNormal,
}
use muthur_collector.Resolver.{Labels, resolve, empty_target}
use muthur_collector.Resolver.Targets.{
  rules, by_rules, resolve-by_rules, resolve-capped, resolve-offline,
}
use muthur_collector.Loki.{fetch_logs, fetch_pod_logs}
use muthur_collector.Loki.Limit.{
  all_pod_logs, fetch_logs-eq-take, fetch_logs-panic, fetch_logs-ne-err,
}
use muthur_collector.Loki.Query.{pod_query-injective}
use muthur_collector.Prometheus.{run_queries, fetch_metrics}
use muthur_collector.Prometheus.Queries.{node_queries}
use muthur_collector.Prometheus.Series.{
  IsSublist, head_of_series, head_of_query, run_queries-IsSublist, fetch_metrics-bounded,
}
use muthur_collector.Forwarder.{Run, forward}
use muthur_collector.Pipeline.{Pipeline, process_alert, base_payload, count_received}
use muthur_collector.Pipeline.Boundary.{IsSanitized, process_alert-IsSanitized}
use muthur_collector.Pipeline.Limits.{process_alert-events, process_alert-forwards}
use muthur_collector.Pipeline.Payload.{IsBare, process_alert-resolved}
use muthur_collector.Examples.Sorting.{insertion_sort, insertion_sort-IsSortSlice}
use muthur_collector.Examples.Fixtures.{
  clientset, web_events, loki_api, loki_client, prom_api, prom_client, world, alert, pipeline,
  hash_redactor,
}

abbrev labels : Labels
labels = (alert []).labels

resolve-by_rules_example :
    record (resolve (some clientset) labels) { resolved_pods = [] }
    ≡ by_rules labels rules (empty_target (get labels (text "namespace")))
resolve-by_rules_example = resolve-by_rules (some clientset) labels

resolve-capped_run : length (resolve (some clientset) labels).resolved_pods ≤ 10
resolve-capped_run = resolve-capped (some clientset) labels

resolve-offline_run :
    record (resolve (some clientset) labels) { resolved_pods = (resolve none labels).resolved_pods }
    ≡ resolve none labels
resolve-offline_run = resolve-offline (some clientset) labels

fetch_logs-eq-take_run :
    fetch_logs loki_api (loki_client (pos 3)) (text "web") (text "web-1" ∷ text "web-2" ∷ [])
    ≡ some (
        ok (
          take 3 (
            all_pod_logs loki_api
              (loki_client (pos 3))
              (text "web")
              (text "web-1" ∷ text "web-2" ∷ []))))
fetch_logs-eq-take_run =
    fetch_logs-eq-take loki_api (loki_client (pos 3)) (text "web")
      (text "web-1" ∷ text "web-2" ∷ []) 3 refl

two_lines :
    fetch_pod_logs loki_api (loki_client (negsuc 0)) (text "web") (text "web-1")
    ≡ ok (text "a#" ∷ text "b" ∷ [])
unfolding fetch_pod_logs text_eq
two_lines = refl

fetch_logs-panic_example :
    (fetch_logs loki_api (loki_client (negsuc 0)) (text "web") (text "web-1" ∷ []) ≡ none) ↔ (
      (pod : Text) × Among pod (text "web-1" ∷ [])
      × (lines : List Text) × (fetch_pod_logs loki_api (loki_client (negsuc 0)) (text "web") pod
          ≡ ok lines))
fetch_logs-panic_example =
    fetch_logs-panic loki_api (loki_client (negsuc 0)) (text "web") (text "web-1" ∷ []) 0 refl

fetch_logs-ne-err_run :
    fetch_logs loki_api (loki_client (pos 3)) (text "web") (text "web-1" ∷ [])
    ≢ some (err (text "loki status: error"))
fetch_logs-ne-err_run =
    fetch_logs-ne-err loki_api (loki_client (pos 3)) (text "web") (text "web-1" ∷ [])
      (text "loki status: error")

pod_query-injective_example : (text "a\"b" ≡ text "a\"b") × (text "web-1" ≡ text "web-1")
pod_query-injective_example =
    pod_query-injective (text "a\"b") (text "web-1") (text "a\"b") (text "web-1") (omega arith)
      (omega arith) (omega arith) (omega arith) refl

fetch_events-IsNewest_example :
    (kept left : List KubernetesEvent) × (fetch_events insertion_sort clientset
        (text "web")
        (text "web-1")
      ≡ ok kept)
    × IsNewest (text "web-1") web_events kept left
fetch_events-IsNewest_example =
    fetch_events-IsNewest insertion_sort clientset (text "web") (text "web-1") web_events
      insertion_sort-IsSortSlice refl

convert_events-IsNormal_run :
    All (IsNormal (text "web-1")) (convert_events (text "web-1") web_events)
convert_events-IsNormal_run = convert_events-IsNormal (text "web-1") web_events

run_queries-IsSublist_run :
    IsSublist
      (map head_of_series (run_queries prom_api prom_client (node_queries (text "node-1"))))
      (map head_of_query (node_queries (text "node-1")))
run_queries-IsSublist_run =
    run_queries-IsSublist prom_api prom_client (node_queries (text "node-1"))

fetch_metrics-bounded_run :
    (series : List MetricSeries) × (fetch_metrics prom_api prom_client
        (text "pod")
        (text "web")
        (text "web-1" ∷ [])
        []
      ≡ ok series)
    × (length series ≤ 8)
fetch_metrics-bounded_run =
    fetch_metrics-bounded prom_api prom_client (text "pod") (text "web") (text "web-1" ∷ []) []

abbrev installation : Pipeline Unit
installation = pipeline insertion_sort

process_alert-forwards_example :
    (payload : AlertPayload) × (m' : Counters) × (process_alert installation
        (alert (text "firing"))
        zero_counters
      ≡ some (payload, forward world payload m'))
process_alert-forwards_example =
    process_alert-forwards installation (alert (text "firing")) zero_counters (200, refl)

abbrev outcome_or : AlertPayload × Run → Option (AlertPayload × Run) → AlertPayload × Run
outcome_or default none = default
outcome_or default (some outcome) = outcome

abbrev base : AlertPayload
base =
    (base_payload installation (alert (text "firing")) (resolve (some clientset) labels)
      zero_counters).0

-- What a firing alert ends in.
abbrev outcome : AlertPayload × Run
outcome =
    outcome_or (base, forward world base zero_counters)
      (process_alert installation (alert (text "firing")) zero_counters)

firing_run : process_alert installation (alert (text "firing")) zero_counters ≡ some outcome
unfolding process_alert text_eq resolve fetch_logs fetch_pod_logs
firing_run = refl

sent_logs : outcome.0.redacted_logs ≡ text "a[S]" ∷ text "b" ∷ []
unfolding process_alert text_eq resolve fetch_logs fetch_pod_logs fetch_metrics redact
sent_logs = refl

process_alert-IsSanitized_example : IsSanitized hash_redactor outcome.0
process_alert-IsSanitized_example =
    process_alert-IsSanitized installation (alert (text "firing")) zero_counters outcome.0 outcome.1
      firing_run

process_alert-events_run : length outcome.0.events ≤ 50
process_alert-events_run =
    process_alert-events installation (alert (text "firing")) zero_counters outcome.0 outcome.1
      firing_run

process_alert-resolved_run :
    let payload =
      base_payload installation
        (alert (text "resolved"))
        (resolve (some clientset) labels)
        (count_received installation (text "resolved") zero_counters) in
    (process_alert installation (alert (text "resolved")) zero_counters
      ≡ some (payload.0, forward world payload.0 payload.1))
    × IsBare payload.0
unfolding text_eq
process_alert-resolved_run =
    process_alert-resolved installation (alert (text "resolved")) zero_counters refl
