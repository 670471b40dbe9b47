-- ===== src/K8s/Events.antt =====
-- internal/k8s/events.go
pub mod Newest
use muthur_collector.Prelude.{
  ℕ, ◌≡◌, refl, Bool, true, false, Option, none, some, List, [], ◌∷◌, ◌++◌, Text, text, ◌==◌,
  bytes_eq, length, take, ltb, if◌then◌else◌,
}
use muthur_collector.Prelude.Int.{ℤ, pos, negsuc, ltb_ℤ}
use muthur_collector.Prelude.Result.{Result, ok, err, ◌>>=◌}
use muthur_collector.Proto.{KubernetesEvent}
use muthur_collector.K8s.{Clientset, Time, CoreEvent, EventSeries}
use muthur_collector.K8s.Lookup.{wrap_error}

abbrev pub max_events_per_object : ℕ
max_events_per_object = 25

-- Unix(); the zero time is the first of January of the year 1.
abbrev pub unix : Time → ℤ
unix none = negsuc 62135596799
unix (some t) = t

-- `if first < 0 { first = 0 }`
abbrev pub at_least_zero : ℤ → ℤ
at_least_zero (pos n) = pos n
at_least_zero (negsuc n) = pos 0

-- `if count == 0 { count = 1 }`
abbrev pub at_least_once : ℤ → ℤ
at_least_once (pos n) = if ltb 0 n then pos n else pos 1
at_least_once (negsuc n) = negsuc n

abbrev first_seen : Time → Time → ℤ
first_seen none event_time = unix event_time
first_seen (some t) event_time = t

-- `last` and `count`, with the fallback to the series or the event time.
abbrev last_seen : Time → Time → ℤ → Option EventSeries → ℤ × ℤ
last_seen (some t) event_time count series = (t, count)
last_seen none event_time count none = (unix event_time, count)
last_seen none event_time count (some s) = (unix s.last_observed_time, s.count)

unfoldable pub convert_event : Text → CoreEvent → KubernetesEvent
convert_event object_name ev =
    let (last, count) = last_seen ev.last_timestamp ev.event_time ev.count ev.series in
    record {
      event_type = ev.event_type;
      reason = ev.reason;
      message = ev.message;
      first_timestamp = at_least_zero (first_seen ev.first_timestamp ev.event_time);
      last_timestamp = at_least_zero last;
      count = at_least_once count;
      involved_object_name = object_name;
    }

unfoldable pub convert_events : Text → List CoreEvent → List KubernetesEvent
unfolding convert_event
convert_events object_name [] = []
convert_events object_name (ev ∷ items) =
    let rest = convert_events object_name items in
    if ev.involved_object_name == object_name then convert_event object_name ev ∷ rest else rest

-- The order that is handed to sort.Slice.
abbrev pub newer : KubernetesEvent → KubernetesEvent → Bool
newer a b = ltb_ℤ b.last_timestamp a.last_timestamp

-- sort.Slice is not stable, so what it does to equal elements is left open: it is a parameter.
abbrev pub SortSlice : Type 0
SortSlice = (KubernetesEvent → KubernetesEvent → Bool) → List KubernetesEvent → List KubernetesEvent

module _ (sort_slice : SortSlice) (c : Clientset) where
  unfoldable pub fetch_events : Text → Text → Result Text (List KubernetesEvent)
  unfolding convert_events wrap_error
  fetch_events namespace object_name = do
    items ←
        wrap_error (text "list events for " ++ object_name)
          (c.list_events namespace (text "involvedObject.name=" ++ object_name))
    ok (
        let events = sort_slice newer (convert_events object_name items) in
        if ltb max_events_per_object (length events)
        then take max_events_per_object events
        else events)
