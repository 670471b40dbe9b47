-- ===== src/Pipeline/Limits.antt =====
-- Bounds of the pipeline, and when it panics.
use mathlib.Core.Path.{subst}
use muthur_collector.Resolver.{resolve}
use muthur_collector.Loki.Limit.{fetch_logs-eq-take}
use muthur_collector.Prelude.Int.{pos}
use muthur_collector.Prelude.{
  ◌≡◌, inl, inr, not, ◌&&◌, Option, none, some, List, [], Text, ◌==◌, bytes_eq, length, ltb,
  Bool-cases, ℕ, ◌≤◌, cut-eq-take, length-take, arith, refl, text, Option-cases,
}
use muthur_collector.Metrics.{Counters, Counted}
use muthur_collector.Proto.{AlertPayload, AlertTarget}
use muthur_collector.Forwarder.{Run, forward, World}
use muthur_collector.Webhook.{Alert}
use muthur_collector.Metrics.Step.{Step, counted, ◌>>=◌}
use muthur_collector.Pipeline.{
  Pipeline, LokiSide, base_payload, logs_of, logs_from, object_events, process_alert,
  max_events_per_payload, enrich, add_logs, build_payload, status_or_firing, forward_built,
  add_metrics, add_events, add_metas,
}
use muthur_collector.Pipeline.Stages.{IsStable, process_alert-keeps}

abbrev HasFewEvents : AlertPayload → Type 0
HasFewEvents payload = length payload.events ≤ max_events_per_payload

stages-HasFewEvents : {Cert : Type 0} (p : Pipeline Cert) → IsStable p HasFewEvents
stages-HasFewEvents p = record {
  logs = λ payload lines m h. h;
  metrics = λ payload series m h. h;
  metas = λ payload metas h. h;
  events = λ payload c namespace objects m h.
      let events = (object_events p c namespace objects m).0 in
      rw (cut-eq-take max_events_per_payload)
        (omega (arith, length-take max_events_per_payload events));
}

-- No payload carries more than fifty events, however many objects the alert has.
pub process_alert-events :
    {Cert : Type 0} (p : Pipeline Cert) (alert : Alert) (m : Counters) (payload : AlertPayload)
    (run : Run)
    → process_alert p alert m ≡ some (payload, run)
    → length payload.events ≤ 50
process_alert-events p alert m payload run e =
    process_alert-keeps p HasFewEvents alert m payload run (stages-HasFewEvents p)
      (λ m'. unfold base_payload in omega arith) e

-- The limit on the log lines is not negative.
abbrev pub HasLimit : Option LokiSide → Type 0
HasLimit none = Unit
HasLimit (some side) = (n : ℕ) × (side.client.max_lines ≡ pos n)

abbrev IsSome : {A : Type 0} → Option A → Type 0
IsSome none = ⊥
IsSome (some a) = Unit

module _ {Cert : Type 0} (p : Pipeline Cert) where
  logs_of-IsSome :
      (namespace : Text) (pods : List Text) (payload : AlertPayload) (side : LokiSide)
      (m : Counters)
      → HasLimit (some side)
      → IsSome (logs_of p namespace pods payload side m)
  logs_of-IsSome namespace pods payload side m (n, limit) =
      elim (Bool-cases (ltb 0 (length pods) && not (namespace == []))) [
        | inl e ↦ rw (e, fetch_logs-eq-take side.api side.client namespace pods n limit) tt
        | inr e ↦ rw e tt
      ]

  logs_from-IsSome :
      (namespace : Text) (pods : List Text) (payload : AlertPayload) (o : Option LokiSide)
      (m : Counters)
      → HasLimit o
      → IsSome (logs_from p namespace pods payload o m)
  logs_from-IsSome namespace pods payload none m h = tt
  logs_from-IsSome namespace pods payload (some side) m h =
      logs_of-IsSome namespace pods payload side m h

  -- Code that cannot panic, after a step.
  then_counted-IsSome :
      {A B : Type 0} (x : Step A) (f : A → Counted B) (m : Counters)
      → IsSome (x m)
      → IsSome ((x >>= λ a. counted (f a)) m)
  then_counted-IsSome x f m h = elim (Option-cases (x m)) [
    | inl e ↦ absurd (subst IsSome e h)
    | inr ((a, m'), e) ↦ rw (IsSome, e) tt
  ]

  enrich-IsSome :
      (namespace : Text) (target : AlertTarget) (payload : AlertPayload) (m : Counters)
      → HasLimit p.loki
      → IsSome (enrich p namespace target payload m)
  unfolding enrich add_logs
  enrich-IsSome namespace target payload m limit =
      let h = logs_from-IsSome namespace target.resolved_pods payload p.loki m limit in
      then_counted-IsSome (add_logs p namespace target.resolved_pods payload)
        (λ with_log_lines m.
          let (with_series, m') = add_metrics p namespace target with_log_lines m in
          add_events p namespace target (add_metas p namespace target.resolved_pods with_series) m')
        m h

  build_payload-IsSome :
      (alert : Alert) (m : Counters) → HasLimit p.loki → IsSome (build_payload p alert m)
  unfolding build_payload
  build_payload-IsSome alert m limit =
      elim (Bool-cases (status_or_firing alert.status == text "resolved")) [
        | inl e ↦ rw e tt
        | inr e ↦ rw e (enrich-IsSome _ (resolve p.resolver_client alert.labels) _ _ limit)
      ]

forward_built-IsSome :
    {Cert : Type 0} (w : World Cert) (o : Option (AlertPayload × Counters))
    → IsSome o
    → (payload : AlertPayload) × (m : Counters) × (forward_built w o
        ≡ some (payload, forward w payload m))
forward_built-IsSome w none h = absurd h
forward_built-IsSome w (some (payload, m)) h = (payload, m, refl)

-- Unless the limit on the log lines is negative, every alert ends in a call of the forwarder: no
-- failure of Loki, Prometheus or the cluster loses it, and nothing panics.
pub process_alert-forwards :
    {Cert : Type 0} (p : Pipeline Cert) (alert : Alert) (m : Counters)
    → HasLimit p.loki
    → (payload : AlertPayload) × (m' : Counters) × (process_alert p alert m
        ≡ some (payload, forward p.world payload m'))
unfolding process_alert
process_alert-forwards p alert m limit =
    forward_built-IsSome p.world _ (build_payload-IsSome p alert _ limit)
