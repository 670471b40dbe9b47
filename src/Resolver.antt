-- ===== src/Resolver.antt =====
-- internal/resolver/resolver.go
pub mod Targets
use muthur_collector.Prelude.{
  ℕ, ◌≡◌, refl, Option, none, some, List, [], ◌∷◌, ◌++◌, Text, text, ◌==◌, bytes_eq, length, take,
  ltb, if◌then◌else◌,
}
use muthur_collector.Prelude.Assoc.{lookup, get}
use muthur_collector.Prelude.Result.{Result, ok, err}
use muthur_collector.Proto.{AlertTarget}
use muthur_collector.K8s.{Clientset}
use muthur_collector.K8s.Lookup.{
  pods_for_deployment, pods_for_daemonset, pods_for_statefulset, pods_for_pvc,
}

abbrev pub Labels : Type 0
Labels = List (Text × Text)

unfoldable pub limit_pods : List Text → ℕ → List Text
limit_pods pods max = if ltb max (length pods) then take max pods else pods

-- `v, ok := labels[k]; ok && v != ""`
unfoldable pub label : Labels → Text → Option Text
unfolding lookup
label labels k = elim (lookup k labels) [ none ↦ none | some v ↦ if v == [] then none else some v ]

abbrev pub empty_target : Text → AlertTarget
empty_target namespace = record {
  target_type = [];
  pod_name = [];
  deployment = [];
  daemonset = [];
  node = [];
  pvc = [];
  namespace = namespace;
  resolved_pods = [];
}

-- The pods of a lookup: none without a client, and none (with a warning) where the lookup fails.
unfoldable pub found_pods : Option (Result Text (List Text)) → List Text
unfolding limit_pods
found_pods none = []
found_pods (some (err e)) = []
found_pods (some (ok pods)) = limit_pods pods 10

abbrev with_client :
    Option Clientset → (Clientset → Result Text (List Text)) → Option (Result Text (List Text))
with_client none f = none
with_client (some c) f = some (f c)

unfoldable pub resolve : Option Clientset → Labels → AlertTarget
unfolding label found_pods get
resolve client labels =
    let namespace = get labels (text "namespace") in
    let target = empty_target namespace in
    elim (label labels (text "pod")) [
      | some pod ↦ record target {
        target_type = text "pod";
        pod_name = pod;
        resolved_pods = pod ∷ [];
      }
      | none ↦ elim (label labels (text "deployment")) [
        | some deploy ↦ record target {
          target_type = text "deployment";
          deployment = deploy;
          resolved_pods =
              found_pods (with_client client (λ c. pods_for_deployment c namespace deploy));
        }
        | none ↦ elim (label labels (text "daemonset")) [
          | some ds ↦ record target {
            target_type = text "daemonset";
            daemonset = ds;
            resolved_pods =
                found_pods (with_client client (λ c. pods_for_daemonset c namespace ds));
          }
          | none ↦ elim (label labels (text "statefulset")) [
            | some ss ↦ record target {
              target_type = text "deployment";
              deployment = ss;
              resolved_pods =
                  found_pods (with_client client (λ c. pods_for_statefulset c namespace ss));
            }
            | none ↦ elim (label labels (text "node")) [
              | some node ↦ record target { target_type = text "node"; node = node }
              | none ↦ elim (label labels (text "persistentvolumeclaim")) [
                | some pvc ↦ record target {
                  target_type = text "pvc";
                  pvc = pvc;
                  resolved_pods =
                      found_pods (with_client client (λ c. pods_for_pvc c namespace pvc));
                }
                | none ↦
                    if namespace == []
                    then record target { target_type = text "unknown" }
                    else record target { target_type = text "namespace" }
              ]
            ]
          ]
        ]
      ]
    ]
