-- ===== src/Prometheus/Series.antt =====
-- The series that FetchMetrics returns.
use muthur_collector.Prelude.{
  ◌≤◌, ◌≡◌, inl, inr, Option, none, some, List, [], ◌∷◌, map, Text, arith, length, if◌then◌else◌,
}
use muthur_collector.Prelude.Result.{ok, Result-cases}
use muthur_collector.Proto.{MetricSeries}
use muthur_collector.Prometheus.{Api, Client, query_range, run_queries, queries_for, fetch_metrics}
use muthur_collector.Prometheus.Queries.{MetricQuery}

-- One list is another with elements left out.
pub data IsSublist {ℓ} {A : Type ℓ} : List A → List A → Type ℓ where
  done : IsSublist [] []
  keep : {x : A} {xs ys : List A} → IsSublist xs ys → IsSublist (x ∷ xs) (x ∷ ys)
  leave : {y : A} {xs ys : List A} → IsSublist xs ys → IsSublist xs (y ∷ ys)

-- What identifies a series, and what it says.
abbrev pub head_of_series : MetricSeries → Text × Text × Text
head_of_series s = (s.metric_name, s.description, s.unit)

abbrev pub head_of_query : MetricQuery → Text × Text × Text
head_of_query q = (q.name, q.description, q.unit)

query_range-head :
    (api : Api) (c : Client) (q : MetricQuery) (s : MetricSeries)
    → query_range api c q ≡ ok s
    → head_of_series s ≡ head_of_query q
unfolding query_range
query_range-head api c q s e = ground arith

-- The series are those of the queries that succeed, in the order of the queries: each has the name, the
-- description and the unit of its query, so none of these comes from outside.
pub run_queries-IsSublist :
    (api : Api) (c : Client) (queries : List MetricQuery)
    → IsSublist (map head_of_series (run_queries api c queries)) (map head_of_query queries)
unfolding run_queries
run_queries-IsSublist api c [] = done
run_queries-IsSublist api c (q ∷ queries) = elim (Result-cases (query_range api c q)) [
  | inl (s, answered) ↦
      rw (answered, run_queries, ← query_range-head api c q s answered)
        (keep (run_queries-IsSublist api c queries))
  | inr (e, failed) ↦ rw (failed, run_queries) (leave (run_queries-IsSublist api c queries))
]

length-run_queries :
    (api : Api) (c : Client) (queries : List MetricQuery)
    → length (run_queries api c queries) ≤ length queries
unfolding run_queries
length-run_queries api c [] = omega arith
length-run_queries api c (q ∷ queries) = ground (arith, length-run_queries api c queries)

abbrev AtMostEight : Option (List MetricQuery) → Type 0
AtMostEight none = Unit
AtMostEight (some queries) = length queries ≤ 8

length-queries_for :
    (api : Api) (c : Client) (target_type namespace : Text) (pods : List Text) (node : Text)
    → AtMostEight (queries_for api c target_type namespace pods node)
unfolding queries_for
length-queries_for api c target_type namespace [] node = ground arith
length-queries_for api c target_type namespace (pod ∷ pods) node = ground arith

abbrev series_of : Api → Client → Option (List MetricQuery) → List MetricSeries
series_of api c none = []
series_of api c (some queries) = run_queries api c queries

length-series_of :
    (api : Api) (c : Client) (o : Option (List MetricQuery))
    → AtMostEight o
    → length (series_of api c o) ≤ 8
length-series_of api c none h = omega arith
length-series_of api c (some queries) h = omega (arith, length-run_queries api c queries)

fetch_metrics-eq :
    (api : Api) (c : Client) (target_type namespace : Text) (pods : List Text) (node : Text)
    → fetch_metrics api c target_type namespace pods node
      ≡ ok (
          if c.enabled
          then series_of api c (queries_for api c target_type namespace pods node)
          else [])
unfolding fetch_metrics
fetch_metrics-eq api c target_type namespace pods node = ground arith

-- FetchMetrics returns no error, whatever fails, and at most eight series.
pub fetch_metrics-bounded :
    (api : Api) (c : Client) (target_type namespace : Text) (pods : List Text) (node : Text)
    → (series : List MetricSeries) × (fetch_metrics api c target_type namespace pods node
        ≡ ok series)
      × (length series ≤ 8)
fetch_metrics-bounded api c target_type namespace pods node =
    let queries = queries_for api c target_type namespace pods node in
    (
      (if c.enabled then series_of api c queries else []),
      fetch_metrics-eq api c target_type namespace pods node,
      ground (
        arith,
        length-series_of api c queries (length-queries_for api c target_type namespace pods node),
      ),
    )
