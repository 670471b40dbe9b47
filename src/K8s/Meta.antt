-- ===== src/K8s/Meta.antt =====
-- internal/k8s/meta.go
use muthur_collector.Prelude.{List, [], ◌∷◌, ◌++◌, Text, text}
use muthur_collector.Prelude.Int.{ℤ, pos}
use muthur_collector.Prelude.Assoc.{get}
use muthur_collector.Prelude.Result.{Result, ok, ◌>>=◌}
use muthur_collector.Proto.{PodMeta}
use muthur_collector.K8s.{Clientset, Pod, Container}
use muthur_collector.K8s.Lookup.{wrap_error}

abbrev first_restart_count : List ℤ → ℤ
first_restart_count [] = pos 0
first_restart_count (n ∷ _) = n

-- The resources of the first container; a missing limit stays the empty string.
abbrev with_resources : List Container → PodMeta → PodMeta
with_resources [] meta = meta
with_resources (container ∷ _) meta = record meta {
  memory_limit = get container.limits (text "memory");
  cpu_limit = get container.limits (text "cpu");
  memory_request = get container.requests (text "memory");
  cpu_request = get container.requests (text "cpu");
}

unfoldable pub describe_pod : Pod → PodMeta
unfolding get
describe_pod pod = with_resources pod.containers (record {
  pod_name = pod.name;
  memory_limit = [];
  memory_request = [];
  cpu_limit = [];
  cpu_request = [];
  node_name = pod.node_name;
  restart_count = first_restart_count pod.restart_counts;
  phase = pod.phase;
})

unfoldable pub pod_meta : Clientset → Text → Text → Result Text PodMeta
unfolding describe_pod wrap_error
pod_meta c namespace pod_name = do
  pod ← wrap_error (text "get pod " ++ pod_name) (c.get_pod namespace pod_name)
  ok (describe_pod pod)
