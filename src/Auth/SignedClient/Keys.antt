-- ===== src/Auth/SignedClient/Keys.antt =====
-- The keys that a client seals to are vouched for by the vendor.
use muthur_collector.Prelude.{
  ◌≡◌, refl, inl, inr, Bool, true, false, Option, Text, bytes_eq, Bool-cases,
}
use muthur_collector.Prelude.All.{All, All-append}
use muthur_collector.Prelude.Result.{Result, ok, err}
use muthur_collector.Errors.{Error}
use muthur_collector.Auth.Sealed.Keys.{HpkePublicKey}
use muthur_collector.Auth.SignedClient.{prepare, transmit, with_key, once, again, call, key_unknown}
use muthur_collector.Auth.Transport.{Suite, Client, Attempt, Sent, Exchange, Credential}
use muthur_collector.Auth.VendorKeys.{active_key}
use muthur_collector.Auth.VendorKeys.Vouched.{IsVouched, IsVouchedResult, active_key-IsVouched}

module _ {Pub Priv Sender Recipient Block Aead Key SigPub Cert : Type 0}
    (suite : Suite Pub Priv Sender Recipient Block Aead Key SigPub Cert) where
  module _ (path raw : Text) (cred : Option (Credential Key)) where
    -- A request that was prepared for a vouched key.
    pub record IsSealedTo (sent : Sent) : Type 0 where
      pub attempt : Attempt
      pub key : HpkePublicKey Pub
      pub opener : Text
      pub vouched : IsVouched suite key
      pub prepared : prepare suite attempt path raw cred key ≡ ok (sent, opener)

    -- What holds of an exchange: its requests, and the client that it leaves.
    pub record IsSafe (x : Exchange Pub Text) : Type 0 where
      pub sealed : All IsSealedTo x.requests
      pub kept : All (IsVouched suite) x.client.keys

    pub transmit-IsSafe :
        (attempt : Attempt) (c : Client Pub) (k : HpkePublicKey Pub)
        (r : Result Error (Sent × Text))
        → prepare suite attempt path raw cred k ≡ r
        → IsVouched suite k
        → All (IsVouched suite) c.keys
        → IsSafe (transmit suite attempt c r)
    transmit-IsSafe attempt c k (err e) made v vs = record { sealed = tt; kept = vs }
    transmit-IsSafe attempt c k (ok (sent, opener)) made v vs = record {
      sealed = (
        record { attempt = attempt; key = k; opener = opener; vouched = v; prepared = made },
        tt,
      );
      kept = vs;
    }

    with_key-IsSafe :
        (attempt : Attempt) (r : Result Error (HpkePublicKey Pub) × Client Pub)
        → IsVouchedResult suite r
        → IsSafe (with_key suite attempt path raw cred r)
    with_key-IsSafe attempt (err e, c) v = record { sealed = tt; kept = v }
    with_key-IsSafe attempt (ok k, c) (v, vs) =
        transmit-IsSafe attempt c k (prepare suite attempt path raw cred k) refl v vs

    once-IsSafe :
        (attempt : Attempt) (refresh : Bool) (c : Client Pub)
        → All (IsVouched suite) c.keys
        → IsSafe (once suite attempt path raw cred refresh c)
    unfolding once
    once-IsSafe attempt refresh c v =
        with_key-IsSafe attempt (active_key suite attempt refresh c)
          (active_key-IsVouched suite attempt refresh c v)

    again-IsSafe :
        (attempt : Attempt) (first : Exchange Pub Text)
        → IsSafe first
        → IsSafe (again suite attempt path raw cred first)
    again-IsSafe attempt first s = elim (Bool-cases (key_unknown suite first.result)) [
      | inr done ↦ rw done s
      | inl retried ↦ rw retried (
          let t = once-IsSafe attempt true first.client s.kept in
          record {
            sealed =
                All-append IsSealedTo first.requests
                  (once suite attempt path raw cred true first.client).requests s.sealed t.sealed;
            kept = t.kept;
          })
    ]

pub call-IsSafe :
    {Pub Priv Sender Recipient Block Aead Key SigPub Cert : Type 0}
    (suite : Suite Pub Priv Sender Recipient Block Aead Key SigPub Cert)
    (first_attempt second_attempt : Attempt) (path raw : Text) (cred : Option (Credential Key))
    (c : Client Pub)
    → All (IsVouched suite) c.keys
    → IsSafe suite path raw cred (call suite first_attempt second_attempt path raw cred c)
unfolding call
call-IsSafe suite first_attempt second_attempt path raw cred c v =
    again-IsSafe suite path raw cred second_attempt (once suite first_attempt path raw cred false c)
      (once-IsSafe suite path raw cred first_attempt false c v)
