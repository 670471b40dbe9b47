-- ===== src/K8s/Lookup.antt =====
-- internal/k8s/lookup.go
use muthur_collector.Prelude.{
  Bool, true, false, Option, none, some, List, [], ◌∷◌, ◌++◌, Text, text, ◌==◌, bytes_eq,
  if◌then◌else◌,
}
use muthur_collector.Prelude.Result.{Result, ok, err, ◌>>=◌}
use muthur_collector.K8s.{Clientset, Pod}

-- fmt.Errorf("…: %w", err), as the text of the error.
unfoldable pub wrap_error : {A : Type 0} → Text → Result Text A → Result Text A
wrap_error prefix (ok a) = ok a
wrap_error prefix (err e) = err (prefix ++ text ": " ++ e)

abbrev pub pod_names : List Pod → List Text
pod_names [] = []
pod_names (pod ∷ pods) = pod.name ∷ pod_names pods

module _ (c : Clientset) where
  unfoldable pub pod_names_by_selector : Text → Text → Result Text (List Text)
  unfolding wrap_error
  pod_names_by_selector namespace selector = do
    pods ← wrap_error (text "list pods") (c.list_pods namespace selector)
    ok (pod_names pods)

  unfoldable pub pods_for_deployment : Text → Text → Result Text (List Text)
  unfolding pod_names_by_selector
  pods_for_deployment namespace name = do
    deploy ← wrap_error (text "get deployment " ++ name) (c.get_deployment namespace name)
    selector ← wrap_error (text "parse selector") (c.label_selector_as_selector deploy)
    pod_names_by_selector namespace selector

  unfoldable pub pods_for_daemonset : Text → Text → Result Text (List Text)
  unfolding pod_names_by_selector
  pods_for_daemonset namespace name = do
    ds ← wrap_error (text "get daemonset " ++ name) (c.get_daemonset namespace name)
    selector ← wrap_error (text "parse selector") (c.label_selector_as_selector ds)
    pod_names_by_selector namespace selector

  unfoldable pub pods_for_statefulset : Text → Text → Result Text (List Text)
  unfolding pod_names_by_selector
  pods_for_statefulset namespace name = do
    ss ← wrap_error (text "get statefulset " ++ name) (c.get_statefulset namespace name)
    selector ← wrap_error (text "parse selector") (c.label_selector_as_selector ss)
    pod_names_by_selector namespace selector

-- The inner loop: the first volume that is the claim ends it.
unfoldable pub mounts : Text → List (Option Text) → Bool
mounts pvc [] = false
mounts pvc (none ∷ volumes) = mounts pvc volumes
mounts pvc (some claim ∷ volumes) =
    let rest = mounts pvc volumes in if claim == pvc then true else rest

unfoldable pub mounting : Text → List Pod → List Text
unfolding mounts
mounting pvc [] = []
mounting pvc (pod ∷ pods) =
    let rest = mounting pvc pods in if mounts pvc pod.volumes then pod.name ∷ rest else rest

unfoldable pub pods_for_pvc : Clientset → Text → Text → Result Text (List Text)
unfolding mounting wrap_error
pods_for_pvc c namespace pvc = do
  pods ← wrap_error (text "list pods") (c.list_pods namespace [])
  ok (mounting pvc pods)
