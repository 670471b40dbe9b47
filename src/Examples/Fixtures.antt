-- ===== src/Examples/Fixtures.antt =====
-- A small installation: a redactor with one pattern, a cluster with one pod, a Loki and a Prometheus.
use muthur_collector.Prelude.{
  ℕ, zero, suc, ◌+◌, ◌≡◌, refl, true, Option, none, some, List, [], ◌∷◌, ◌++◌, Text, text, ◌==◌,
  nat_eq, if◌then◌else◌, arith,
}
use muthur_collector.Prelude.Int.{ℤ, pos}
use muthur_collector.Prelude.Result.{ok, err}
use muthur_collector.Errors.{Error, other}
use muthur_collector.Redact.{Redactor}
use muthur_collector.Redact.FailClosed.{IsLawful}
use muthur_collector.Redact.Patterns.{Regexp}
use muthur_collector.K8s.{Clientset, Pod, CoreEvent}
use muthur_collector.K8s.Events.{SortSlice}
use muthur_collector.Forwarder.{World, grpc, unavailable}
use muthur_collector.Webhook.{Alert}
use muthur_collector.Loki
use muthur_collector.Prometheus
use muthur_collector.Pipeline.{Pipeline}

-- The regular expression "#".
abbrev pub count_hashes : Text → ℕ
count_hashes [] = 0
count_hashes (c ∷ s) = (if c == 35 then 1 else 0) + count_hashes s

abbrev pub replace_hashes : Text → Text → Text
replace_hashes [] t = []
replace_hashes (c ∷ s) t = (if c == 35 then t else c ∷ []) ++ replace_hashes s t

abbrev pub hash_regexp : Regexp
hash_regexp = record { count_matches = count_hashes; replace_all = replace_hashes }

hash_no_match : (s t : Text) → count_hashes s ≡ 0 → replace_hashes s t ≡ s
hash_no_match [] t h = refl
hash_no_match (c ∷ s) t h = ground (arith, hash_no_match s t)

pub hash_regexp-IsLawful : IsLawful hash_regexp
hash_regexp-IsLawful = record { no_match = hash_no_match }

abbrev pub hash_redactor : Redactor
hash_redactor = record {
  patterns =
      record {
        category = text "secret";
        name = text "hash";
        regex = hash_regexp;
        replacement = text "[S]";
      }
      ∷ [];
  max_line_bytes = 8;
  max_total_bytes = 20;
  max_string_bytes = 8;
  log_stats = true;
}

-- A line with two matches, an oversize line, and two lines of which the second breaks the budget.
abbrev pub log_lines : List Text
log_lines = text "a#b#" ∷ text "0123456789" ∷ text "######" ∷ text "plain" ∷ []

abbrev pub web_pod : Pod
web_pod = record {
  name = text "web-1";
  node_name = text "node-1";
  phase = text "Running";
  volumes = some (text "data") ∷ none ∷ [];
  containers = [];
  restart_counts = pos 2 ∷ [];
}

abbrev pub event_at : Text → ℕ → CoreEvent
event_at message t = record {
  event_type = text "Warning";
  reason = text "BackOff";
  message = message;
  first_timestamp = none;
  last_timestamp = some (pos t);
  event_time = none;
  count = pos 0;
  series = none;
  involved_object_name = text "web-1";
}

abbrev pub web_events : List CoreEvent
web_events = event_at (text "old") 3 ∷ event_at (text "key #") 5 ∷ []

abbrev pub clientset : Clientset
clientset = record {
  get_deployment = λ namespace name. ok (text "app=web");
  get_daemonset = λ namespace name. err (text "not found");
  get_statefulset = λ namespace name. err (text "not found");
  label_selector_as_selector = λ selector. ok selector;
  list_pods = λ namespace selector. ok (web_pod ∷ []);
  get_pod = λ namespace name. ok web_pod;
  list_events = λ namespace selector. ok web_events;
}

abbrev pub loki_api : Loki.Api
loki_api = record {
  send = λ request. ok (record { status_code = 200; body = text "{}" });
  decode = λ body. ok (record {
    status = text "success";
    result = record { values = (text "1" ∷ text "a#" ∷ []) ∷ (text "2" ∷ text "b" ∷ []) ∷ [] } ∷ [];
  });
}

abbrev pub loki_client : ℤ → Loki.Client
loki_client limit = record {
  base_url = text "http://loki";
  lookback_min = pos 15;
  max_lines = limit;
}

abbrev pub prom_api : Prometheus.Api
prom_api = record {
  send = λ request. ok (record { status_code = 200; body = text "{}" });
  decode = λ body. ok (record { status = text "success"; result = text "series" ∷ [] });
  decode_matrix = λ series. some ((Prometheus.num 7 ∷ Prometheus.str (text "1") ∷ []) ∷ []);
  parse_float = λ s. some 9;
  float_to_int = λ f. pos f;
}

abbrev pub prom_client : Prometheus.Client
prom_client = record { base_url = text "http://prom"; lookback_min = pos 30; enabled = true }

-- A server that is unavailable at the first attempt and accepts the second.
abbrev pub second_time : ℕ → Option Error
second_time zero = some (other (text "unavailable"))
second_time (suc attempt) = none

abbrev pub world : World Unit
world = record {
  transport = grpc (λ attempt metadata payload. second_time attempt);
  cancelled = λ attempt. none;
  unix_now = λ attempt. 1000 + attempt;
  fresh_nonce = λ attempt. text "nonce";
  status_code = λ e. unavailable;
}

abbrev pub alert : Text → Alert
alert status = record {
  status = status;
  labels =
      (text "alertname", text "Crash")
      ∷ (text "namespace", text "web")
      ∷ (text "pod", text "web-1")
      ∷ [];
  annotations = (text "summary", text "key #") ∷ [];
  starts_at = pos 100;
  ends_at = pos 0;
}

abbrev pub pipeline : SortSlice → Pipeline Unit
pipeline sort_slice = record {
  cluster_id = text "c1";
  grafana_base_url = [];
  resolver_client = some clientset;
  loki = some (record { api = loki_api; client = loki_client (pos 200) });
  prom_api = prom_api;
  prom = prom_client;
  k8s_client = some clientset;
  sort_slice = sort_slice;
  redactor = hash_redactor;
  world = world;
}
