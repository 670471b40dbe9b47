-- ===== src/Examples/Enrolment.antt =====
-- Runs of the flows over a Kubernetes Secret.
use muthur_collector.Prelude.{ℕ, ◌≡◌, refl, true, none, some, Option, [], ◌∷◌, text, text_eq}
use muthur_collector.Prelude.Int.{pos}
use muthur_collector.Prelude.Result.{ok, err}
use muthur_collector.Prelude.Strings.{trim_space}
use muthur_collector.Errors.{other}
use muthur_collector.Config
use muthur_collector.Config.{Config, read_config}
use muthur_collector.Auth.Persister.{IsPersister}
use muthur_collector.Auth.SecretStore.{
  SecretStore, Secret, Faults, secret_persister, write_secret, secret_exists, read_secret,
}
use muthur_collector.Auth.SecretStore.Contents.{contents, secret_persister-IsPersister}
use muthur_collector.Auth.Flows.{Outside, Enrolment, run_renew, bootstrap_call}
use muthur_collector.Main.{bootstrap, dispatch, renew_flow, main_bootstrap}
use muthur_collector.Main.Restart.{main_bootstrap-idempotent}

dispatch_run : dispatch (text "collector" ∷ []) (text "bootstrap") ≡ ok bootstrap
unfolding dispatch text_eq
dispatch_run = refl

abbrev store : SecretStore
store = record { namespace = text "muthur"; secret_name = text "cert" }

abbrev pub no_faults : Faults
no_faults = record { get_fault = none; update_fault = none; create_fault = none }

-- The API server answers no read.
abbrev pub get_refused : Faults
get_refused = record no_faults { get_fault = some (other (text "timeout")) }

secret_persister-IsPersister_example : IsPersister (secret_persister store no_faults) contents
secret_persister-IsPersister_example = secret_persister-IsPersister store no_faults

abbrev brain : Enrolment ℕ
brain = record {
  bootstrap = λ cluster token csr. ok (text "leaf", text "root");
  renew = λ cred csr. ok (text "leaf 2", []);
}

abbrev pub outside : Outside ℕ
outside = record {
  read_token = λ path. ok (text " t0\n");
  csr_tools = record {
    generate_key = ok (text "key");
    parse_url = λ s. some s;
    create_request = λ template key. ok template.common_name;
    marshal_pkcs8 = λ key. ok key;
    encode_pem = λ kind bytes. bytes;
  };
  new_signed_client = λ url ca edge. ok brain;
  new_brain_client = λ url ca. ok brain;
  create_temp = none;
  write_temp = none;
  key_pair = λ cert key. ok 7;
  decode_pem = λ pem. none;
  parse_certificate = λ der. err (other (text "not a certificate"));
  time_sub = λ a b. a;
  now = pos 0;
}

abbrev environment : Config.Outside
environment = record {
  getenv = λ key. text "x";
  atoi = λ s. pos 0;
  parse_bool = λ s. true;
  parse_duration = λ s. ok (pos 1);
}

abbrev cfg : Config
cfg = read_config environment (pos 1)

first_run : (main_bootstrap outside cfg (secret_persister store no_faults) none).error ≡ none
unfolding main_bootstrap text_eq read_config trim_space write_secret secret_exists
first_run = refl

main_bootstrap-idempotent_run :
    let r = main_bootstrap outside cfg (secret_persister store no_faults) none in
    let r' = main_bootstrap outside cfg (secret_persister store get_refused) r.stored in
    (r'.calls ≡ []) × (r'.stored ≡ r.stored)
main_bootstrap-idempotent_run =
    main_bootstrap-idempotent outside outside cfg store no_faults get_refused none first_run

token_spent :
    (main_bootstrap outside cfg (secret_persister store no_faults) none).calls
    ≡ bootstrap_call (text "x") (text "t0") (text "x") ∷ []
unfolding main_bootstrap text_eq read_config trim_space write_secret secret_exists
token_spent = refl

abbrev stored : Option Secret
stored = (main_bootstrap outside cfg (secret_persister store no_faults) none).stored

-- The CA of the first certificate is kept by a renewal that brings none.
renewed :
    contents
      (run_renew outside (renew_flow outside cfg (secret_persister store no_faults)) stored).stored
    ≡ some (record { cert = text "leaf 2"; key = text "key"; ca = text "root" })
unfolding run_renew renew_flow main_bootstrap text_eq read_config trim_space write_secret
    secret_exists read_secret
renewed = refl
