-- ===== src/Prometheus/Queries.antt =====
-- The queries of internal/prometheus/client.go, one list for each type of target.
use Prim.Native.String.{String}
use muthur_collector.Prelude.{List, [], ◌∷◌, ◌++◌, Text, text}
use muthur_collector.Prelude.Quote.{quote}

pub record MetricQuery : Type 0 where
  pub name : Text
  pub query : Text
  pub description : Text
  pub unit : Text

abbrev metric : String → Text → String → String → MetricQuery
metric name query description unit = record {
  name = text name;
  query = query;
  description = text description;
  unit = text unit;
}

-- The filter of the container metrics of one pod.
abbrev pod_filter : Text → Text → Text
pod_filter namespace pod =
    text "namespace="
    ++ quote namespace
    ++ text ", pod="
    ++ quote pod
    ++ text ", container!=\"POD\""

abbrev queries_of_pod : Text → Text → Text → List MetricQuery
queries_of_pod namespace pod filter =
    metric "container_memory_working_set_bytes"
      (text "container_memory_working_set_bytes{" ++ filter ++ text "}") "Working set memory"
      "bytes"
    ∷ metric "container_memory_limit_bytes"
        (text "container_memory_limit_bytes{" ++ filter ++ text "}") "Memory limit" "bytes"
    ∷ metric "container_cpu_usage_rate"
        (text "rate(container_cpu_usage_seconds_total{" ++ filter ++ text "}[5m])") "CPU usage rate"
        "seconds"
    ∷ metric "container_restarts_total"
        (text "container_restarts_total{namespace="
          ++ quote namespace
          ++ text ", pod="
          ++ quote pod
          ++ text "}")
        "Container restarts" "count"
    ∷ metric "container_network_receive_errors_rate"
        (text "rate(container_network_receive_errors_total{namespace="
          ++ quote namespace
          ++ text ", pod="
          ++ quote pod
          ++ text "}[5m])")
        "Network receive errors rate" "count"
    ∷ metric "container_network_transmit_errors_rate"
        (text "rate(container_network_transmit_errors_total{namespace="
          ++ quote namespace
          ++ text ", pod="
          ++ quote pod
          ++ text "}[5m])")
        "Network transmit errors rate" "count"
    ∷ []

unfoldable pub pod_queries : Text → List Text → List MetricQuery
unfolding quote
pod_queries namespace [] = []
pod_queries namespace (pod ∷ _) = queries_of_pod namespace pod (pod_filter namespace pod)

-- strings.Join(pods, "|")
unfoldable pub join_bar : List Text → Text
join_bar [] = []
join_bar (pod ∷ []) = pod
join_bar (pod ∷ next ∷ pods) = pod ++ text "|" ++ join_bar (next ∷ pods)

abbrev deployment_filter : Text → Text → Text
deployment_filter namespace regex =
    text "namespace="
    ++ quote namespace
    ++ text ", pod=~"
    ++ quote regex
    ++ text ", container!=\"POD\""

abbrev queries_of_deployment : Text → Text → Text → List MetricQuery
queries_of_deployment namespace regex filter =
    metric "container_memory_working_set_bytes"
      (text "container_memory_working_set_bytes{" ++ filter ++ text "}") "Working set memory"
      "bytes"
    ∷ metric "container_memory_limit_bytes"
        (text "container_memory_limit_bytes{" ++ filter ++ text "}") "Memory limit" "bytes"
    ∷ metric "container_cpu_usage_rate"
        (text "rate(container_cpu_usage_seconds_total{" ++ filter ++ text "}[5m])") "CPU usage rate"
        "seconds"
    ∷ metric "container_restarts_total"
        (text "container_restarts_total{namespace="
          ++ quote namespace
          ++ text ", pod=~"
          ++ quote regex
          ++ text "}")
        "Container restarts" "count"
    ∷ metric "container_network_receive_errors_rate"
        (text "rate(container_network_receive_errors_total{namespace="
          ++ quote namespace
          ++ text ", pod=~"
          ++ quote regex
          ++ text "}[5m])")
        "Network receive errors rate" "count"
    ∷ metric "container_network_transmit_errors_rate"
        (text "rate(container_network_transmit_errors_total{namespace="
          ++ quote namespace
          ++ text ", pod=~"
          ++ quote regex
          ++ text "}[5m])")
        "Network transmit errors rate" "count"
    ∷ metric "kube_deployment_status_replicas_available"
        (text "kube_deployment_status_replicas_available{namespace=" ++ quote namespace ++ text "}")
        "Available replicas" "count"
    ∷ metric "kube_deployment_status_replicas_unavailable"
        (text "kube_deployment_status_replicas_unavailable{namespace="
          ++ quote namespace
          ++ text "}")
        "Unavailable replicas" "count"
    ∷ []

unfoldable pub deployment_queries : Text → List Text → List MetricQuery
unfolding join_bar quote
deployment_queries namespace [] = []
deployment_queries namespace (pod ∷ pods) =
    let regex = join_bar (pod ∷ pods) in
    queries_of_deployment namespace regex (deployment_filter namespace regex)

abbrev queries_of_node : Text → List MetricQuery
queries_of_node filter =
    metric "node_memory_MemAvailable_bytes"
      (text "node_memory_MemAvailable_bytes{" ++ filter ++ text "}") "Available memory" "bytes"
    ∷ metric "node_memory_MemTotal_bytes" (text "node_memory_MemTotal_bytes{" ++ filter ++ text "}")
        "Total memory" "bytes"
    ∷ metric "node_cpu_usage_rate"
        (text "rate(node_cpu_seconds_total{" ++ filter ++ text ", mode!=\"idle\"}[5m])")
        "CPU usage rate" "seconds"
    ∷ metric "node_filesystem_avail_bytes"
        (text "node_filesystem_avail_bytes{" ++ filter ++ text ", mountpoint=\"/\"}")
        "Available filesystem" "bytes"
    ∷ metric "node_filesystem_size_bytes"
        (text "node_filesystem_size_bytes{" ++ filter ++ text ", mountpoint=\"/\"}")
        "Total filesystem" "bytes"
    ∷ metric "node_load1" (text "node_load1{" ++ filter ++ text "}") "1-minute load average" "count"
    ∷ []

-- The name stands in the filter as it is, not quoted.
unfoldable pub node_queries : Text → List MetricQuery
node_queries node = queries_of_node (text "instance=~\"" ++ node ++ text ".*\"")

unfoldable pub pvc_queries : Text → List MetricQuery
unfolding quote
pvc_queries namespace =
    metric "kubelet_volume_stats_used_bytes"
      (text "kubelet_volume_stats_used_bytes{namespace=" ++ quote namespace ++ text "}")
      "PVC used bytes" "bytes"
    ∷ metric "kubelet_volume_stats_capacity_bytes"
        (text "kubelet_volume_stats_capacity_bytes{namespace=" ++ quote namespace ++ text "}")
        "PVC capacity bytes" "bytes"
    ∷ []
