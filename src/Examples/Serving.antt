-- ===== src/Examples/Serving.antt =====
-- A server over the signed transport, from its environment to the requests for its alerts.
use mathlib.Core.List.{Permᴰ}
use mathlib.Core.List.Permᴰ
use muthur_collector.Prelude.{
  ℕ, ◌≡◌, refl, true, none, some, List, [], ◌∷◌, Text, text, text_eq, ◌==◌, bytes_eq, arith,
  if◌then◌else◌, ◌++◌,
}
use muthur_collector.Prelude.All.{All}
use muthur_collector.Prelude.Int.{pos}
use muthur_collector.Prelude.Result.{Result, ok, err}
use muthur_collector.Errors.{other}
use muthur_collector.Metrics.{zero_counters}
use muthur_collector.Config
use muthur_collector.Config.{Config, read_config}
use muthur_collector.Auth.Reloader.{Disk, Reloader, new_client_reloader, get_client_certificate}
use muthur_collector.Auth.Transport.{Credential}
use muthur_collector.Auth.SignedClient.Endpoints.{Codec, Setup}
use muthur_collector.Forwarder.{forward, unavailable}
use muthur_collector.Forwarder.Signed.{
  SignedWorld, SignedState, requests_before, signed_world, certificate_at, client_at,
}
use muthur_collector.Forwarder.Signed.Delivered.{forward-delivers}
use muthur_collector.Webhook.{Alert, Request}
use muthur_collector.Main.Serve.{Services, Server, run_server, new_logger, configured_pipeline}
use muthur_collector.Main.Serve.Wiring.{IsWired, run_server-IsWired}
use muthur_collector.Examples.Delivery.{payload}
use muthur_collector.Examples.Sorting.{insertion_sort}
use muthur_collector.Examples.Suite.{test_hpke-IsHpke, test_gcm-IsGcm, test_primitives-IsSound}
use muthur_collector.Examples.Fixtures.{alert, clientset, hash_regexp, loki_api, prom_api}
use muthur_collector.Examples.Transport.{
  suite, key_set, echo, attempt, attempt-IsHonest, request, request_prepared, empty_client,
  full_client, keys_fetched, key_there, brain_key,
}

abbrev cred : Credential ℕ
cred = record { chain = text "leaf" ∷ []; private_key = some 9 }

abbrev cert_disk : Disk (Credential ℕ)
cert_disk = record { first_stat = ok (pos 5); load_stat = ok (pos 5); key_pair = ok cred }

abbrev no_disk : Disk (Credential ℕ)
no_disk = record {
  first_stat = err (text "no such file");
  load_stat = err (text "no such file");
  key_pair = err (text "no such file");
}

abbrev loaded_cert : Reloader (Credential ℕ)
loaded_cert = some (record { cert = cred; mtime = pos 5 })

abbrev codec : Codec
codec = record {
  encode_bootstrap = λ cluster_id token csr. ok (text "hi");
  encode_sign_csr = λ csr. ok (text "hi");
  encode_payload = λ payload. ok (text "hi");
  decode_bootstrap = λ s. ok (s, s);
  decode_sign_csr = λ s. ok (s, s);
  decode_ingest = λ s. ok tt;
}

abbrev wire : SignedWorld ℕ
wire = record {
  disk = λ n. cert_disk;
  first_attempt = λ n. attempt;
  second_attempt = λ n. attempt;
  cancelled = λ n. none;
  status_code = λ e. unavailable;
}

abbrev state : SignedState Text ℕ
state = record { reloader = loaded_cert; client = empty_client }

abbrev environment : Config.Outside
environment = record {
  getenv = λ key. if key == text "AUTH_MODE" then text "signed" else text "x";
  atoi = λ s. pos 7;
  parse_bool = λ s. true;
  parse_duration = λ s. ok (pos 1);
}

abbrev cfg : Config
cfg = read_config environment (pos 1)

abbrev setup : Setup ℕ
setup = record {
  parse_url = λ s. ok (record { scheme = text "https"; host = s; path = []; raw_query = [] });
  trim_slashes = λ s. s;
  read_file = λ path. ok path;
  certs_from_pem = λ pem. some 1;
}

abbrev services : Services ℕ ℕ ℕ ℕ
services = record {
  environment = environment;
  zap = record { unmarshal_level = λ s. err (other s); build = λ level. ok tt };
  client_go = record { in_cluster_config = ok 1; new_for_config = λ config. ok clientset };
  loki_api = loki_api;
  prom_api = prom_api;
  sort_slice = insertion_sort;
  must_compile = λ s. hash_regexp;
  compile = λ s. some hash_regexp;
  disk = λ cert_path key_path.
      if cert_path ++ key_path == text "x/tls.crtx/tls.key" then cert_disk else no_disk;
  setup = setup;
  dial = λ target pool reloader. ok 1;
  close = λ conn. none;
}

abbrev server : Server ℕ ℕ ℕ
server = record {
  addr = text ":x";
  handler = record { capacity = 7; running = []; dropped = [] };
  forwarder = record {
    conn = none;
    signed = some (record { base = text "https://x"; vendor = 1; edge = some 1 });
    reloader = some loaded_cert;
  };
  pipeline = configured_pipeline services cfg;
}

started : run_server services ≡ ok server
unfolding run_server text_eq new_logger new_client_reloader
started = refl

abbrev alerts : List (Alert × SignedWorld ℕ)
alerts = (alert (text "firing"), wire) ∷ (alert (text "resolved"), wire) ∷ []

run_server-IsWired_example :
    (c : Config) × (Config.load environment ≡ ok c) × IsWired services c server
run_server-IsWired_example = run_server-IsWired services server started

-- Eight alerts for seven workers: the last one is dropped, and the workers run in the order in which the
-- alerts came.
abbrev firing : Alert
firing = alert (text "firing")

abbrev resolved : Alert
resolved = alert (text "resolved")

abbrev eight : List Alert
eight = resolved ∷ firing ∷ firing ∷ firing ∷ firing ∷ firing ∷ firing ∷ resolved ∷ []

abbrev post : Request
post = record { method = text "POST"; body = ok (text "8") }

abbrev decoded : Text → Result Text (List Alert)
decoded s = ok eight

abbrev seven : List (Alert × SignedWorld ℕ)
seven =
    (firing, wire)
    ∷ (firing, wire)
    ∷ (firing, wire)
    ∷ (firing, wire)
    ∷ (firing, wire)
    ∷ (firing, wire)
    ∷ (resolved, wire)
    ∷ []

held : certificate_at suite codec wire state 0 ≡ ok cred
unfolding certificate_at get_client_certificate
held = refl

forward-delivers_example :
    let run = forward (signed_world suite codec wire state) payload zero_counters in
    (run.error ≡ none)
    × (run.sends ≡ 1)
    × (requests_before suite codec wire state payload run.sends ≡ request ∷ [])
unfolding client_at requests_before
forward-delivers_example =
    forward-delivers suite codec wire state payload zero_counters key_set (λ k. k) echo 0
      (text "hi") (text "leaf") [] 9 brain_key (text "brain") request (text "brain") full_client
      test_hpke-IsHpke test_gcm-IsGcm test_primitives-IsSound attempt-IsHonest (omega arith)
      (omega arith) (omega arith) (λ j below. absurd (omega arith))
      (λ j below. absurd (omega arith)) held refl refl keys_fetched key_there refl request_prepared
