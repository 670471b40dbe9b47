-- ===== src/Forwarder.antt =====
-- internal/forwarder/forwarder.go: the retry loop and one send. What the outside does at each attempt
-- (attempts are counted from 0) is the record `World`.
pub mod Dial
pub mod Signed
pub mod Retry
pub mod Outcome
use muthur_collector.Prelude.{
  ℕ, zero, suc, ◌+◌, ◌^◌, ◌≡◌, Bool, true, false, Option, none, some, List, [], ◌∷◌, ◌++◌, Text,
  text, decimal, ltb, if◌then◌else◌,
}
use muthur_collector.Prelude.Result.{Result, ok, err}
use muthur_collector.Errors.{HttpError, Error, http, other, wrap, as_http, permanent}
use muthur_collector.Metrics.{Counters, Counted}
use muthur_collector.Proto.{AlertPayload}

-- google.golang.org/grpc/codes
pub data Code : Type 0 where
  ok_code canceled unknown invalid_argument deadline_exceeded not_found already_exists : Code
  permission_denied resource_exhausted failed_precondition aborted out_of_range : Code
  unimplemented internal unavailable data_loss unauthenticated : Code

-- The client of one of the two transports.
pub data Transport (Cert : Type 0) : Type 0 where
  -- f.client.Ingest with the replay metadata
  grpc : (ℕ → List (Text × Text) → AlertPayload → Option Error) → Transport Cert
  -- f.reloader.GetClientCertificate and f.signed.Ingest
  signed : (ℕ → Result Error Cert) → (ℕ → AlertPayload → Cert → Option Error) → Transport Cert

pub record World (Cert : Type 0) : Type 0 where
  pub transport : Transport Cert
  -- Whether the context is done while the wait before an attempt runs, and its error.
  pub cancelled : ℕ → Option Error
  -- The seconds of the clock and the nonce at an attempt.
  pub unix_now : ℕ → ℕ
  pub fresh_nonce : ℕ → Text
  -- status.Code
  pub status_code : Error → Code

abbrev permanent_code : Code → Bool
permanent_code invalid_argument = true
permanent_code unauthenticated = true
permanent_code permission_denied = true
permanent_code failed_precondition = true
permanent_code not_found = true
permanent_code unimplemented = true
permanent_code _ = false

unfoldable pub is_permanent : (Error → Code) → Error → Bool
unfolding as_http permanent
is_permanent status_code e = elim (as_http e) [
  | some he ↦ permanent he
  | none ↦ permanent_code (status_code e)
]

abbrev meta_timestamp : Text
meta_timestamp = text "x-muthur-timestamp"

abbrev meta_nonce : Text
meta_nonce = text "x-muthur-nonce"

abbrev send_signed :
    {Cert : Type 0}
    → ℕ
    → AlertPayload
    → (ℕ → AlertPayload → Cert → Option Error)
    → Result Error Cert
    → Option Error
send_signed attempt payload ingest (err e) = some (wrap (text "load client cert") e)
send_signed attempt payload ingest (ok cert) = ingest attempt payload cert

abbrev send_over : {Cert : Type 0} → World Cert → Transport Cert → ℕ → AlertPayload → Option Error
send_over w (grpc ingest) attempt payload =
    ingest attempt
      ((meta_timestamp, decimal (w.unix_now attempt)) ∷ (meta_nonce, w.fresh_nonce attempt) ∷ [])
      payload
send_over w (signed get_client_certificate ingest) attempt payload =
    send_signed attempt payload ingest (get_client_certificate attempt)

-- `none` is success.
unfoldable pub send : {Cert : Type 0} → World Cert → ℕ → AlertPayload → Option Error
send w attempt payload = send_over w w.transport attempt payload

-- What a run of Forward does: its error, the sends made and the waits in seconds, and the counters.
pub record Run : Type 0 where
  pub error : Option Error
  pub sends : ℕ
  pub backoffs : List ℕ
  pub counters : Counters

abbrev count_error : Counters → Counters
count_error m = record m { forwards_error = m.forwards_error + 1 }

abbrev count_ok : Counters → Counters
count_ok m = record m { forwards_ok = m.forwards_ok + 1 }

-- After the loop.
abbrev give_up : Error → ℕ → List ℕ → Counters → Run
give_up last_error sends backoffs m = record {
  error = some (wrap (text "forward failed") last_error);
  sends = sends;
  backoffs = backoffs;
  counters = count_error m;
}

module _ {Cert : Type 0} (w : World Cert) (payload : AlertPayload) where
  -- The loop from `attempt` on, with `rounds` rounds left. The first part of a round is the wait before
  -- a retry, the second the send.
  unfoldable pub attempt_loop : ℕ → ℕ → Error → ℕ → List ℕ → Counters → Run
  unfolding is_permanent
  attempt_loop zero attempt last_error sends backoffs m = give_up last_error sends backoffs m
  attempt_loop (suc rounds) attempt last_error sends backoffs m =
      let retries =
        if ltb 0 attempt then record m { forward_retries = m.forward_retries + 1 } else m in
      let waits = if ltb 0 attempt then backoffs ++ 2 ^ attempt ∷ [] else backoffs in
      elim (if ltb 0 attempt then w.cancelled attempt else none) [
        | some e ↦ record {
          error = some (wrap (text "forward cancelled during backoff") e);
          sends = sends;
          backoffs = waits;
          counters = count_error retries;
        }
        | none ↦ elim (send w attempt payload) [
          | none ↦ record {
            error = none;
            sends = sends + 1;
            backoffs = waits;
            counters = count_ok retries;
          }
          | some e ↦ elim (is_permanent w.status_code e) [
            | true ↦ give_up e (sends + 1) waits retries
            | false ↦ attempt_loop rounds (attempt + 1) e (sends + 1) waits retries
          ]
        ]
      ]

  unfoldable pub forward : Counters → Run
  unfolding attempt_loop
  forward m = attempt_loop 3 0 (other []) 0 [] m
