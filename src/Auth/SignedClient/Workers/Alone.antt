-- ===== src/Auth/SignedClient/Workers/Alone.antt =====
-- A call that runs alone.
use mathlib.Core.List.{map-append}
use muthur_collector.Prelude.{
  ◌≡◌, refl, ap, Bool, true, false, Bool-cases, inl, inr, List, [], ◌∷◌, ◌++◌, append-nil, Text,
  map,
}
use muthur_collector.Prelude.Result.{Result, ok, err}
use muthur_collector.Errors.{Error}
use muthur_collector.Auth.Sealed.Keys.{HpkePublicKey}
use muthur_collector.Auth.Transport.{Suite, Attempt, Client, Exchange, Sent}
use muthur_collector.Auth.VendorKeys.{active_key}
use muthur_collector.Auth.SignedClient.{prepare, transmit, key_unknown, once, call, with_key}
use muthur_collector.Auth.SignedClient.Workers.{
  Job, Pc, asking, holding, keyed, ended, System, after_key, after_reply, acquire, release, post,
  move, Reach, here, next, idle,
}

module _ {Pub Priv Sender Recipient Block Aead Key SigPub Cert : Type 0}
    (suite : Suite Pub Priv Sender Recipient Block Aead Key SigPub Cert) (job : Job Key) where
  abbrev pub alone : Client Pub → Bool → List (Job Key × Sent) → Pc Pub → System Pub Key
  alone c locked wire pc = record {
    shared = record { client = c; locked = locked; wire = wire };
    workers = record { job = job; pc = pc } ∷ [];
  }

  abbrev pub tagged : List Sent → List (Job Key × Sent)
  tagged requests = map (λ sent. (job, sent)) requests

  -- After an attempt.
  abbrev after : List (Job Key × Sent) → Bool → Exchange Pub Text → System Pub Key
  after wire refresh x =
      alone x.client false (wire ++ tagged x.requests) (after_reply suite refresh x.result)

  transmit-client :
      (attempt : Attempt) (c : Client Pub) (r : Result Error (Sent × Text))
      → (transmit suite attempt c r).client ≡ c
  transmit-client attempt c (err e) = refl
  transmit-client attempt c (ok (sent, opener)) = refl

  sealed-runs :
      (s : System Pub Key) (attempt : Attempt) (refresh : Bool) (wire : List (Job Key × Sent))
      (r : Result Error (HpkePublicKey Pub) × Client Pub)
      → Reach suite s (alone r.1 false wire (after_key suite refresh r.0))
      → Reach suite s (after wire refresh (with_key suite attempt job.path job.raw job.cred r))
  sealed-runs s attempt refresh wire (err e, c) run = rw append-nil run
  sealed-runs s attempt refresh wire (ok k, c) run =
      let request = prepare suite attempt job.path job.raw job.cred k in
      let x = transmit suite attempt c request in
      next run (
        move [] [] job (keyed refresh k) (after_reply suite refresh x.result) refl refl (
          post attempt refresh k refl refl (
            ap
              (λ (c' : Client Pub). record {
                client = c';
                locked = false;
                wire = wire ++ tagged x.requests;
              })
              (transmit-client attempt c request))))

  once-runs :
      (s : System Pub Key) (attempt : Attempt) (refresh : Bool) (wire : List (Job Key × Sent))
      (c : Client Pub)
      → Reach suite s (alone c false wire (asking refresh))
      → Reach suite s (after wire refresh (once suite attempt job.path job.raw job.cred refresh c))
  unfolding once
  once-runs s attempt refresh wire c run =
      let got = active_key suite attempt refresh c in
      sealed-runs s attempt refresh wire got (
        next {t = alone c true wire (holding refresh)}
          (next run (
            move [] [] job (asking refresh) (holding refresh) refl refl
              (acquire refresh refl refl refl refl)))
          (move [] [] job (holding refresh) (after_key suite refresh got.0) refl refl
            (release attempt refresh refl refl refl)))

  -- A call that runs alone is one run of the steps: there is a run that ends with its result, leaves its
  -- client, and posts its requests.
  pub call-runs :
      (first_attempt second_attempt : Attempt) (c : Client Pub)
      → let x = call suite first_attempt second_attempt job.path job.raw job.cred c in
        Reach suite (idle c (job ∷ [])) (alone x.client false (tagged x.requests) (ended x.result))
  unfolding call
  call-runs first_attempt second_attempt c =
      let start = idle c (job ∷ []) in
      let first = once suite first_attempt job.path job.raw job.cred false c in
      let ran = once-runs start first_attempt false [] c here in
      elim (Bool-cases (key_unknown suite first.result)) [
        | inr e ↦ rw e (rw e at ran)
        | inl e ↦
            let second = once suite second_attempt job.path job.raw job.cred true first.client in
            rw
              (
                e,
                map-append {B = Job Key × Sent} (λ (sent : Sent). (job, sent)) first.requests
                    second.requests,
              )
              (once-runs start second_attempt true (tagged first.requests) first.client
                (rw e at ran))
      ]
