-- ===== src/Loki.antt =====
-- internal/loki/client.go. The HTTP exchange and the JSON decoder are the record `Api`; a request is
-- what the URL carries, with the window as its length in minutes.
pub mod Limit
pub mod Query
use muthur_collector.Prelude.{
  ℕ, ◌≡◌, refl, Bool, true, false, Option, none, some, List, [], ◌∷◌, ◌++◌, Text, text, decimal,
  ◌==◌, nat_eq, bytes_eq, length, take, leb, if◌then◌else◌,
}
use muthur_collector.Prelude.Int.{ℤ, pos, negsuc, leb_ℤ, pos_part, neg_part}
use muthur_collector.Prelude.Quote.{quote}
use muthur_collector.Prelude.Result.{Result, ok, err, ◌>>=◌}

pub record Request : Type 0 where
  pub base_url : Text
  pub query : Text
  pub lookback_min : ℤ
  pub limit : ℤ
  pub direction : Text

pub record HttpReply : Type 0 where
  pub status_code : ℕ
  pub body : Text

pub record Stream : Type 0 where
  pub values : List (List Text)

pub record Response : Type 0 where
  pub status : Text
  pub result : List Stream

pub record Api : Type 0 where
  -- building the request and httpClient.Do
  pub send : Request → Result Text HttpReply
  -- json.NewDecoder(resp.Body).Decode
  pub decode : Text → Result Text Response

pub record Client : Type 0 where
  pub base_url : Text
  pub lookback_min : ℤ
  pub max_lines : ℤ

-- NewClient; the HTTP client is the parameter `Api`.
unfoldable pub new_loki_client : Text → ℤ → ℤ → Client
new_loki_client base_url lookback_min max_lines = record {
  base_url = base_url;
  lookback_min = lookback_min;
  max_lines = max_lines;
}

unfoldable pub pod_query : Text → Text → Text
unfolding quote
pod_query namespace pod =
    text "{namespace=" ++ (quote namespace ++ (text ", pod=" ++ (quote pod ++ text "}")))

-- A value is a pair of a time and a line; a shorter one is skipped.
abbrev line_of : List Text → List Text
line_of (_ ∷ line ∷ _) = line ∷ []
line_of _ = []

stream_lines : List (List Text) → List Text
stream_lines [] = []
stream_lines (v ∷ values) = line_of v ++ stream_lines values

unfoldable pub all_lines : List Stream → List Text
unfolding stream_lines
all_lines [] = []
all_lines (s ∷ streams) = stream_lines s.values ++ all_lines streams

abbrev http_ok : HttpReply → Result Text Text
http_ok resp =
    if resp.status_code == 200
    then ok resp.body
    else err (text "loki returned " ++ decimal resp.status_code ++ text ": " ++ resp.body)

abbrev success : Response → Result Text Response
success r = if r.status == text "success" then ok r else err (text "loki status: " ++ r.status)

-- allLines[:n], which panics below 0 (`none`); the callers have at least n elements.
unfoldable pub slice_to : List Text → ℤ → Option (List Text)
slice_to lines (pos n) = some (take n lines)
slice_to lines (negsuc n) = none

module _ (api : Api) (c : Client) where
  unfoldable pub fetch_pod_logs : Text → Text → Result Text (List Text)
  unfolding pod_query all_lines
  fetch_pod_logs namespace pod = do
    resp ← api.send (record {
      base_url = c.base_url;
      query = pod_query namespace pod;
      lookback_min = c.lookback_min;
      limit = c.max_lines;
      direction = text "backward";
    })
    body ← http_ok resp
    decoded ← api.decode body
    r ← success decoded
    ok (all_lines r.result)

  -- The loop over the pods; a pod whose logs cannot be fetched is skipped.
  unfoldable pub fetch_loop : Text → List Text → List Text → Option (List Text)
  unfolding slice_to
  fetch_loop namespace [] lines = some lines
  fetch_loop namespace (pod ∷ pods) lines = elim (fetch_pod_logs namespace pod) [
    | err e ↦ fetch_loop namespace pods lines
    | ok more ↦ elim (leb_ℤ c.max_lines (pos (length (lines ++ more)))) [
      | true ↦ slice_to (lines ++ more) c.max_lines
      | false ↦ fetch_loop namespace pods (lines ++ more)
    ]
  ]

  -- `none` is a panic; the error that the signature has is never used.
  unfoldable pub fetch_logs : Text → List Text → Option (Result Text (List Text))
  unfolding fetch_loop
  fetch_logs namespace pods = elim (fetch_loop namespace pods []) [
    | none ↦ none
    | some lines ↦ some (ok lines)
  ]
