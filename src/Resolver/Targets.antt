-- ===== src/Resolver/Targets.antt =====
-- What Resolve chooses.
use muthur_collector.Proto.{AlertTarget}
use muthur_collector.Prelude.{
  ◌≤◌, ◌≡◌, Option, none, some, List, [], ◌∷◌, Text, text, ◌==◌, bytes_eq, arith, length,
  if◌then◌else◌,
}
use muthur_collector.Prelude.Assoc.{get}
use muthur_collector.K8s.{Clientset}
use muthur_collector.Resolver.{Labels, label, resolve, empty_target}

-- The labels in the order in which they are tried, with what each makes of the target.
abbrev pub rules : List (Text × (Text → AlertTarget → AlertTarget))
rules =
    (text "pod", λ v t. record t { target_type = text "pod"; pod_name = v })
    ∷ (text "deployment", λ v t. record t { target_type = text "deployment"; deployment = v })
    ∷ (text "daemonset", λ v t. record t { target_type = text "daemonset"; daemonset = v })
    ∷ (text "statefulset", λ v t. record t { target_type = text "deployment"; deployment = v })
    ∷ (text "node", λ v t. record t { target_type = text "node"; node = v })
    ∷ (text "persistentvolumeclaim", λ v t. record t { target_type = text "pvc"; pvc = v })
    ∷ []

-- The first rule whose label is set decides; with none of them set, the namespace does.
unfoldable pub by_rules :
    Labels → List (Text × (Text → AlertTarget → AlertTarget)) → AlertTarget → AlertTarget
by_rules labels [] t = record t {
  target_type = if t.namespace == [] then text "unknown" else text "namespace";
}
by_rules labels ((k, rule) ∷ rest) t = elim (label labels k) [
  | some v ↦ rule v t
  | none ↦ by_rules labels rest t
]

module _ (client : Option Clientset) (labels : Labels) where
  -- But for the pods, the target is what the first rule whose label is set makes of the empty target
  -- of the namespace: its type and the one field that names the object. With no label of a rule, the
  -- type is "namespace" if there is a namespace and "unknown" if not.
  pub resolve-by_rules :
      record (resolve client labels) { resolved_pods = [] }
      ≡ by_rules labels rules (empty_target (get labels (text "namespace")))
  unfolding resolve by_rules
  resolve-by_rules = ground arith

  -- At most ten pods are resolved for an alert.
  pub resolve-capped : length (resolve client labels).resolved_pods ≤ 10
  unfolding resolve
  resolve-capped = ground arith

  -- The cluster decides the pods and nothing else: with or without a client, and whether its calls
  -- fail or not, all other fields of the target are the same.
  pub resolve-offline :
      record (resolve client labels) { resolved_pods = (resolve none labels).resolved_pods }
      ≡ resolve none labels
  unfolding resolve
  resolve-offline = ground arith
