-- ===== src/Examples/Transport.antt =====
-- Runs of the signed transport over the test suite.
use muthur_collector.Prelude.{
  ℕ, ◌≤◌, ◌<◌, ◌≡◌, refl, true, false, none, some, Option, [], ◌∷◌, ◌++◌, Text, text, text_eq,
  length, arith,
}
use muthur_collector.Prelude.Assoc.{lookup}
use muthur_collector.Prelude.Hex.{hex}
use muthur_collector.Prelude.Int.{pos}
use muthur_collector.Prelude.Result.{Result, ok, err}
use muthur_collector.Errors.{Error}
use muthur_collector.Auth.HttpSig.{verify_request, sign_request, cert_key_id}
use muthur_collector.Auth.SignatureBase.{SignatureError, Header, header_get}
use muthur_collector.Auth.HttpSig.RoundTrip.{verify_request-sign_request}
use muthur_collector.Auth.Sealed.{
  HpkeKeySet, open_request, seal_request, seal_response, seal_aad, sealed_version,
}
use muthur_collector.Auth.Sealed.Conversation.{open_request-seal_request}
use muthur_collector.Auth.Sealed.Payload.{ed25519}
use muthur_collector.Auth.Sealed.Keys.{HpkePublicKey, hpke_key_id}
use muthur_collector.Auth.SignedClient.{prepare, call, once, key_unknown}
use muthur_collector.Auth.Transport.{
  Suite, Client, Attempt, Credential, Sent, HttpReply, AdvertisedKey, Documents,
}
use muthur_collector.Auth.VendorKeys.{active_key}
use muthur_collector.Auth.SignedClient.Calls.{IsHonest, call-answered, call-requests}
use muthur_collector.Examples.Suite.{
  test_hpke, test_hpke-IsHpke, test_gcm, test_gcm-IsGcm, test_primitives, test_primitives-IsSound,
}

abbrev entry : AdvertisedKey
entry = record {
  kid = text "05";
  kem = text "dhkem-x25519-hkdf-sha256";
  kdf = text "hkdf-sha256";
  aead = text "aes-256-gcm";
  public_key = text "brain";
}

abbrev test_docs : Documents ℕ
test_docs = record {
  decode_document = λ s. ok (record { payload = s; signature = text "sig"; signer = text "der" });
  decode_payload = λ s. ok (entry ∷ []);
  decode_error = λ s. none;
  parse_certificate = λ der. ok 1;
  chain_error = λ now cert. none;
  verifiers = record { cert_kind = λ cert. ed25519; check_signature = λ a cert payload sig. none };
}

abbrev pub suite : Suite Text Text Text Text Text Text ℕ ℕ ℕ
suite = record { hpke = test_hpke; gcm = test_gcm; prims = test_primitives; docs = test_docs }

abbrev pub key_set : HpkeKeySet Text
key_set = record { order = text "05" ∷ []; keys = (text "05", text "brain") ∷ [] }

abbrev pub brain_key : HpkePublicKey Text
brain_key = record { kid = text "05"; key = text "brain" }

-- The brain sends back what it was sent, after a byte.
abbrev pub echo : Text → Text
echo s = b'>' ∷ s

abbrev reply_to : Result Error (Text × Text) → Result Error HttpReply
reply_to (err e) = ok (record { status = 500; body = ok [] })
reply_to (ok (plaintext, key)) =
    ok (record {
      status = 200;
      body = ok (sealed_version ∷ (text "nonce-nonce-" ++ echo plaintext));
    })

abbrev pub attempt : Attempt
attempt = record {
  checked_at = pos 10;
  verified_at = pos 11;
  fetched_at = pos 12;
  created = pos 13;
  nonce = text "n0";
  seal_random = text "r";
  sign_random = text "r";
  get_keys = ok (record { status = 200; body = ok (text "doc") });
  post = λ sent. reply_to (
      open_request test_hpke key_set (header_get sent.header (text "X-Muthur-Hpke-Kid")) sent.path
        (header_get sent.header (text "X-Muthur-Timestamp"))
        (header_get sent.header (text "X-Muthur-Nonce")) sent.body);
}

pub attempt-IsHonest : IsHonest suite key_set 9 echo attempt
unfolding seal_response
attempt-IsHonest = record {
  answers = λ sent plaintext key info opened digest verified. (
    text "nonce-nonce-",
    sealed_version ∷ (text "nonce-nonce-" ++ echo plaintext),
    refl,
    refl,
    rw opened refl,
  );
}

abbrev pub credential : Option (Credential ℕ)
credential = some (record { chain = text "leaf" ∷ []; private_key = some 9 })

abbrev sent_of : Result Error (Sent × Text) → Sent
sent_of (err e) = record { path = []; header = []; body = [] }
sent_of (ok (s, opener)) = s

abbrev pub request : Sent
request =
    sent_of (prepare suite attempt (text "/muthur/v1/ingest") (text "hi") credential brain_key)

pub request_prepared :
    prepare suite attempt (text "/muthur/v1/ingest") (text "hi") credential brain_key
    ≡ ok (request, text "brain")
unfolding prepare seal_request sign_request
request_prepared = refl

abbrev pub empty_client : Client Text
empty_client = record { keys = []; fetched = pos 0 }

abbrev pub full_client : Client Text
full_client = record { keys = brain_key ∷ []; fetched = pos 12 }

pub keys_fetched : active_key suite attempt false empty_client ≡ (ok brain_key, full_client)
unfolding active_key hpke_key_id text_eq hex
keys_fetched = refl

pub key_there : lookup (text "05") key_set.keys ≡ some (text "brain")
unfolding lookup text_eq
key_there = refl

call-answered_example :
    call suite attempt attempt (text "/muthur/v1/ingest") (text "hi") credential empty_client
    ≡ record { result = ok (text ">hi"); requests = request ∷ []; client = full_client }
call-answered_example =
    call-answered suite key_set (λ k. k) echo attempt attempt (text "/muthur/v1/ingest") (text "hi")
      (text "leaf") [] 9 brain_key (text "brain") request (text "brain") empty_client full_client
      test_hpke-IsHpke test_gcm-IsGcm test_primitives-IsSound attempt-IsHonest (omega arith)
      (omega arith) keys_fetched key_there refl request_prepared

-- An edge that does not know the key of the first request.
abbrev forgetful : Attempt
forgetful = record attempt { post = λ sent. ok (record { status = 400; body = ok [] }) }

abbrev coded_docs : Documents ℕ
coded_docs = record test_docs { decode_error = λ s. some (text "hpke_key_unknown", []) }

abbrev coded : Suite Text Text Text Text Text Text ℕ ℕ ℕ
coded = record suite { docs = coded_docs }

call-requests_run :
    let x =
      call coded forgetful attempt (text "/muthur/v1/ingest") (text "hi") credential full_client in
    let first =
      once coded forgetful (text "/muthur/v1/ingest") (text "hi") credential false full_client in
    (length x.requests ≤ 2)
    × (1 < length x.requests
        → (key_unknown coded first.result ≡ true)
          × (x.result
              ≡ (once coded attempt
                  (text "/muthur/v1/ingest")
                  (text "hi")
                  credential
                  true
                  first.client).result))
call-requests_run =
    call-requests coded forgetful attempt (text "/muthur/v1/ingest") (text "hi") credential
      full_client

retried :
    (call coded forgetful attempt
      (text "/muthur/v1/ingest")
      (text "hi")
      credential
      full_client).result
    ≡ ok (text ">hi")
unfolding call once active_key prepare hpke_key_id text_eq hex open_request
retried = refl

abbrev header_of : Result SignatureError Header → Header
header_of (err e) = []
header_of (ok h) = h

abbrev signed_header : Header
signed_header = header_of (
    sign_request test_primitives (text "r") [] (text "POST") (text "/muthur/v1/ingest") (some 9)
      (text "leaf") (pos 13))

header_signed :
    sign_request test_primitives
      (text "r")
      []
      (text "POST")
      (text "/muthur/v1/ingest")
      (some 9)
      (text "leaf")
      (pos 13)
    ≡ ok signed_header
unfolding sign_request
header_signed = refl

verify_request-sign_request_example :
    verify_request test_primitives (text "POST") (text "/muthur/v1/ingest") signed_header (some 9)
    ≡ ok (record { created = pos 13; key_id = cert_key_id test_primitives (text "leaf") })
verify_request-sign_request_example =
    verify_request-sign_request test_primitives (λ k. k) (text "r") (text "POST")
      (text "/muthur/v1/ingest") [] signed_header 9 (text "leaf") (pos 13) test_primitives-IsSound
      (omega arith) (omega arith) header_signed

abbrev sealed : Text
sealed = sealed_version ∷ (text "0123456789abcdef0123456789abcdef" ++ text "13\nn0hi")

request_sealed :
    seal_request test_hpke
      (text "r")
      (text "brain")
      (text "/muthur/v1/ingest")
      (text "13")
      (text "n0")
      (text "hi")
    ≡ ok (sealed, text "brain")
unfolding seal_request seal_aad
request_sealed = refl

open_request-seal_request_example :
    open_request test_hpke key_set
      (text "05")
      (text "/muthur/v1/ingest")
      (text "13")
      (text "n0")
      sealed
    ≡ ok (text "hi", text "brain")
open_request-seal_request_example =
    open_request-seal_request test_hpke key_set (text "05") (text "brain") (text "r")
      (text "/muthur/v1/ingest") (text "13") (text "n0") (text "hi") sealed (text "brain")
      test_hpke-IsHpke key_there request_sealed
