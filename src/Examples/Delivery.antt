-- ===== src/Examples/Delivery.antt =====
-- Runs of the webhook and the forwarder.
use muthur_collector.Prelude.{
  ℕ, zero, suc, ◌+◌, ◌-◌, ◌<◌, ◌≤◌, ◌≡◌, refl, ◌≢◌, true, not, ◌||◌, none, List, [], ◌∷◌, Text,
  text, ◌==◌, bytes_eq, length, take, arith, ◌↔◌, ◌⊎◌,
}
use muthur_collector.Prelude.Int.{pos}
use muthur_collector.Prelude.Result.{Result, ok}
use muthur_collector.Metrics.{zero_counters}
use muthur_collector.Proto.{AlertPayload}
use muthur_collector.Resolver.{empty_target}
use muthur_collector.Forwarder.{send, forward, is_permanent}
use muthur_collector.Forwarder.Retry.{
  is_transient, forward-bounds, forward-retries, forward-success_iff, forward_reaches,
}
use muthur_collector.Forwarder.Outcome.{if_ok, if_error, forward-counters}
use muthur_collector.Webhook.{Alert, Gate, offer, offer_all, Request, read_alerts, serve_http}
use muthur_collector.Webhook.Burst.{is_err, offer_all-counts, serve_http-rejects}
use muthur_collector.Webhook.Storm.{
  System, Step, receive, admit, Reach, here, next, count, IsConserved, Reach-IsWithin,
  Reach-IsConserved, Step-drops_only_full,
}
use muthur_collector.Examples.Fixtures.{world, alert}

abbrev pub payload : AlertPayload
payload = record {
  cluster_id = text "c1";
  alert_name = text "Crash";
  severity = [];
  namespace = text "web";
  pod_name = [];
  fired_at = pos 100;
  summary = [];
  description = [];
  target = empty_target (text "web");
  redacted_logs = [];
  metrics = [];
  pod_metas = [];
  labels = [];
  total_log_lines = 0;
  redacted_log_lines = 0;
  total_replacements = 0;
  status = text "firing";
  grafana_base_url = [];
  events = [];
}

forward_run :
    ((forward world payload zero_counters).sends ≡ 2)
    × ((forward world payload zero_counters).backoffs ≡ 2 ∷ [])
unfolding forward send
forward_run = (refl, refl)

forward-bounds_example :
    let run = forward world payload zero_counters in
    (1 ≤ run.sends)
    × (run.sends ≤ 3)
    × (run.sends ≤ length run.backoffs + 1)
    × (length run.backoffs ≤ run.sends)
    × (run.backoffs ≡ take (length run.backoffs) (2 ∷ 4 ∷ []))
forward-bounds_example = forward-bounds world payload zero_counters

-- The first of the two sends fails for a reason that may pass.
two_sends : 0 + 1 < (forward world payload zero_counters).sends
unfolding forward send
two_sends = omega arith

forward-retries_example :
    (is_transient world.status_code (send world 0 payload) ≡ true) × (world.cancelled 1 ≡ none)
forward-retries_example = forward-retries world payload zero_counters 0 two_sends

forward-success_iff_run :
    ((forward world payload zero_counters).error ≡ none)
    ↔ (send world ((forward world payload zero_counters).sends - 1) payload ≡ none)
forward-success_iff_run = forward-success_iff world payload zero_counters

second_send : send world 1 payload ≡ none
unfolding send
second_send = refl

first_send : (j : ℕ) → j < 1 → is_transient world.status_code (send world j payload) ≡ true
unfolding send is_permanent
first_send zero h = refl
first_send (suc j) h = absurd (omega arith)

forward_reaches_example :
    ((forward world payload zero_counters).error ≡ none)
    × ((forward world payload zero_counters).sends ≡ 2)
forward_reaches_example =
    forward_reaches world payload zero_counters 1 (omega arith) second_send first_send (λ j h. refl)

forward-counters_run :
    let run = forward world payload zero_counters in
    run.counters ≡ record zero_counters {
      forwards_ok = 0 + if_ok run.error;
      forwards_error = 0 + if_error run.error;
      forward_retries = 0 + length run.backoffs;
    }
forward-counters_run = forward-counters world payload zero_counters

abbrev crash : Alert
crash = alert (text "firing")

abbrev gate : Gate
gate = record { capacity = 1; running = []; dropped = [] }

offer_all-counts_run :
    let g' = offer_all (crash ∷ crash ∷ crash ∷ []) gate in
    (length g'.running ≡ 1) × (length g'.dropped ≡ 2) × (g'.capacity ≡ 1)
offer_all-counts_run = offer_all-counts (crash ∷ crash ∷ crash ∷ []) gate (omega arith)

abbrev decode : Text → Result Text (List Alert)
decode body = ok (crash ∷ [])

abbrev request : Request
request = record { method = text "POST"; body = ok (text "{}") }

serve_http-rejects_run :
    (((serve_http decode request gate).0.status ≢ 200)
      ↔ ((not (request.method == text "POST") || is_err (read_alerts decode request)) ≡ true))
    × (((serve_http decode request gate).0.status ≡ 200)
        ⊎ ((serve_http decode request gate).1 ≡ gate))
serve_http-rejects_run = serve_http-rejects decode request gate

abbrev idle : System
idle = record { gate = gate; pending = []; finished = []; received = [] }

abbrev both_received : System
both_received = record idle { pending = crash ∷ crash ∷ []; received = crash ∷ crash ∷ [] }

abbrev one_admitted : System
one_admitted = record both_received { pending = crash ∷ []; gate = offer crash gate }

abbrev one_dropped : System
one_dropped = record one_admitted { pending = []; gate = offer crash (offer crash gate) }

drop_second : Step one_admitted one_dropped
drop_second = admit crash [] [] refl refl

storm : Reach idle one_dropped
storm =
    next
      (next (next here (receive (crash ∷ crash ∷ []) refl)) (admit crash [] (crash ∷ []) refl refl))
      drop_second

Reach-IsWithin_example : length one_dropped.gate.running ≤ one_dropped.gate.capacity
Reach-IsWithin_example = Reach-IsWithin idle one_dropped storm (omega arith)

idle-IsConserved : IsConserved (λ a. true) idle
unfolding count
idle-IsConserved = refl

Reach-IsConserved_example : IsConserved (λ a. true) one_dropped
Reach-IsConserved_example = Reach-IsConserved (λ a. true) idle one_dropped storm idle-IsConserved

dropped_one : one_dropped.gate.dropped ≢ one_admitted.gate.dropped
unfolding offer
dropped_one h = ground arith

Step-drops_only_full_example : one_admitted.gate.capacity ≤ length one_admitted.gate.running
Step-drops_only_full_example = Step-drops_only_full one_admitted one_dropped drop_second dropped_one
