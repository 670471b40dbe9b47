-- ===== src/K8s.antt =====
-- internal/k8s: what the collector reads from the Kubernetes API. The API itself (client-go) is the
-- record `Clientset` below; a call gives a value or an error, whatever the reason of the error.
pub mod Client
pub mod Lookup
pub mod Meta
pub mod Events
use muthur_collector.Prelude.{ℕ, List, Option, Text}
use muthur_collector.Prelude.Int.{ℤ}
use muthur_collector.Prelude.Result.{Result}

-- A metav1.Time or MicroTime: `none` is the zero time, `some` the seconds of the Unix epoch.
abbrev pub Time : Type 0
Time = Option ℤ

pub record Container : Type 0 where
  -- Resources, each quantity by its String().
  pub limits : List (Text × Text)
  pub requests : List (Text × Text)

pub record Pod : Type 0 where
  pub name : Text
  pub node_name : Text
  pub phase : Text
  -- The claim name of each volume; `none` for a volume that is not a claim.
  pub volumes : List (Option Text)
  pub containers : List Container
  -- The restart count of each container status.
  pub restart_counts : List ℤ

pub record EventSeries : Type 0 where
  pub count : ℤ
  pub last_observed_time : Time

pub record CoreEvent : Type 0 where
  pub event_type : Text
  pub reason : Text
  pub message : Text
  pub first_timestamp : Time
  pub last_timestamp : Time
  pub event_time : Time
  pub count : ℤ
  pub series : Option EventSeries
  pub involved_object_name : Text

pub record Clientset : Type 0 where
  -- Get of a workload, by namespace and name: its Spec.Selector, encoded.
  pub get_deployment : Text → Text → Result Text Text
  pub get_daemonset : Text → Text → Result Text Text
  pub get_statefulset : Text → Text → Result Text Text
  -- metav1.LabelSelectorAsSelector, and String() of its result
  pub label_selector_as_selector : Text → Result Text Text
  -- List, by namespace and label selector; the empty selector lists all
  pub list_pods : Text → Text → Result Text (List Pod)
  pub get_pod : Text → Text → Result Text Pod
  -- List, by namespace and field selector
  pub list_events : Text → Text → Result Text (List CoreEvent)
