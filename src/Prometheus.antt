-- ===== src/Prometheus.antt =====
-- internal/prometheus/client.go. The HTTP exchange and the decoders are the record `Api`.
pub mod Queries
pub mod Series
use muthur_collector.Prelude.{
  ℕ, ◌≡◌, Bool, true, false, Option, none, some, List, [], ◌∷◌, ◌++◌, Text, text, decimal, ◌==◌,
  nat_eq, bytes_eq, if◌then◌else◌,
}
use muthur_collector.Prelude.Int.{ℤ}
use muthur_collector.Prelude.Result.{Result, ok, err, ◌>>=◌}
use muthur_collector.Proto.{MetricSeries, DataPoint}
use Queries.{MetricQuery}
unfoldable pub use Queries.{pod_queries, deployment_queries, node_queries, pvc_queries}

-- The range runs from the window's length before now until now, in steps of a minute.
pub record Request : Type 0 where
  pub base_url : Text
  pub query : Text
  pub lookback_min : ℤ
  pub step : Text

pub record HttpReply : Type 0 where
  pub status_code : ℕ
  pub body : Text

-- A value of decoded JSON; a number is its 64-bit pattern.
pub data Json : Type 0 where
  num : ℕ → Json
  str : Text → Json
  other : Json

-- `result` holds the undecoded texts of the series.
pub record Response : Type 0 where
  pub status : Text
  pub result : List Text

pub record Api : Type 0 where
  pub send : Request → Result Text HttpReply
  pub decode : Text → Result Text Response
  -- json.Unmarshal of one series: its values
  pub decode_matrix : Text → Option (List (List Json))
  -- strconv.ParseFloat(s, 64) and int64(f), on 64-bit patterns
  pub parse_float : Text → Option ℕ
  pub float_to_int : ℕ → ℤ

pub record Client : Type 0 where
  pub base_url : Text
  pub lookback_min : ℤ
  pub enabled : Bool

-- NewClient; the HTTP client is the parameter `Api`.
unfoldable pub new_prometheus_client : Text → ℤ → Bool → Client
new_prometheus_client base_url lookback_min enabled = record {
  base_url = base_url;
  lookback_min = lookback_min;
  enabled = enabled;
}

abbrev http_ok : HttpReply → Result Text Text
http_ok resp =
    if resp.status_code == 200
    then ok resp.body
    else err (text "prometheus returned " ++ decimal resp.status_code ++ text ": " ++ resp.body)

abbrev success : Response → Result Text Response
success r =
    if r.status == text "success" then ok r else err (text "prometheus status: " ++ r.status)

module _ (api : Api) where
  -- One element of Values: a time and the text of a number, or it is skipped.
  unfoldable pub point_of : List Json → List DataPoint
  point_of (num ts ∷ str val ∷ _) = elim (api.parse_float val) [
    | none ↦ []
    | some v ↦ record { timestamp = api.float_to_int ts; value = v } ∷ []
  ]
  point_of _ = []

  unfoldable pub points_of : List (List Json) → List DataPoint
  unfolding point_of
  points_of [] = []
  points_of (v ∷ values) = point_of v ++ points_of values

  -- The first series that can be decoded; those after it are not looked at.
  unfoldable pub first_points : List Text → List DataPoint
  unfolding points_of
  first_points [] = []
  first_points (raw ∷ rest) = elim (api.decode_matrix raw) [
    | none ↦ first_points rest
    | some values ↦ points_of values
  ]

  module _ (c : Client) where
    unfoldable pub query_range : MetricQuery → Result Text MetricSeries
    unfolding first_points
    query_range q = do
      resp ← api.send (record {
        base_url = c.base_url;
        query = q.query;
        lookback_min = c.lookback_min;
        step = text "60s";
      })
      body ← http_ok resp
      decoded ← api.decode body
      r ← success decoded
      ok (record {
        metric_name = q.name;
        description = q.description;
        unit = q.unit;
        points = first_points r.result;
      })

    -- The loop over the queries; a query that fails is skipped.
    unfoldable pub run_queries : List MetricQuery → List MetricSeries
    unfolding query_range
    run_queries [] = []
    run_queries (q ∷ queries) =
        let rest = run_queries queries in elim (query_range q) [ err e ↦ rest | ok s ↦ s ∷ rest ]

    -- The switch on the target type; `none` for a type without metrics.
    unfoldable pub queries_for : Text → Text → List Text → Text → Option (List MetricQuery)
    unfolding pod_queries deployment_queries node_queries pvc_queries
    queries_for target_type namespace pods node =
        if target_type == text "pod"
        then some (pod_queries namespace pods)
        else if target_type == text "deployment"
        then some (deployment_queries namespace pods)
        else if target_type == text "node"
        then some (node_queries node)
        else if target_type == text "pvc"
        then some (pvc_queries namespace)
        else none

    -- The error that the signature has is never used.
    unfoldable pub fetch_metrics : Text → Text → List Text → Text → Result Text (List MetricSeries)
    unfolding run_queries queries_for
    fetch_metrics target_type namespace pods node =
        if c.enabled
        then (elim (queries_for target_type namespace pods node) [
          | none ↦ ok []
          | some queries ↦ ok (run_queries queries)
        ])
        else ok []
