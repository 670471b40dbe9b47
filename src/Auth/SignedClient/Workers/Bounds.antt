-- ===== src/Auth/SignedClient/Workers/Bounds.antt =====
-- How many steps and how many requests calls of a shared client make.
use muthur_collector.Prelude.{
  ℕ, suc, ◌+◌, ◌*◌, ◌≤◌, ◌<◌, ◌≡◌, refl, ap, Bool, true, false, Bool-cases, inl, inr, List, [], ◌∷◌,
  Text, map, arith, length, length-append,
}
use muthur_collector.Prelude.Result.{Result, ok, err}
use muthur_collector.Errors.{Error}
use muthur_collector.Auth.Sealed.Keys.{HpkePublicKey}
use muthur_collector.Auth.Transport.{Suite, Attempt, Client, Sent}
use muthur_collector.Auth.VendorKeys.{active_key}
use muthur_collector.Auth.SignedClient.{prepare, transmit, key_unknown}
use muthur_collector.Auth.SignedClient.Workers.Weights.{weigh, weigh-move, posts_left, moves_left}
use muthur_collector.Auth.SignedClient.Workers.{
  Job, Pc, asking, holding, keyed, Shared, System, after_key, posted, after_reply, Move, acquire,
  release, post, Step, move, Reach, here, next, calling,
}

module _ {Pub Priv Sender Recipient Block Aead Key SigPub Cert : Type 0}
    (suite : Suite Pub Priv Sender Recipient Block Aead Key SigPub Cert) where
  after_reply-moves :
      (refresh : Bool) (k : HpkePublicKey Pub) (r : Result Error Text)
      → moves_left (after_reply suite refresh r) < moves_left (keyed refresh k)
  after_reply-moves true k r = omega arith
  after_reply-moves false k r = elim (Bool-cases (key_unknown suite r)) [
    | inl e ↦ rw e (omega arith)
    | inr e ↦ rw e (omega arith)
  ]

  after_key-moves :
      (refresh : Bool) (r : Result Error (HpkePublicKey Pub))
      → moves_left (after_key suite refresh r) < moves_left {Pub = Pub} (holding refresh)
  after_key-moves true (ok k) = omega arith
  after_key-moves false (ok k) = omega arith
  after_key-moves true (err e) = omega arith
  after_key-moves false (err e) = elim (Bool-cases (key_unknown suite (err e))) [
    | inl h ↦ rw h (omega arith)
    | inr h ↦ rw h (omega arith)
  ]

  asking-moves :
      (refresh : Bool)
      → moves_left {Pub = Pub} (holding refresh) < moves_left {Pub = Pub} (asking refresh)
  asking-moves true = omega arith
  asking-moves false = omega arith

  Move-moves :
      (h h' : Shared Pub Key) (job : Job Key) (pc pc' : Pc Pub)
      → Move suite h h' job pc pc'
      → moves_left pc' < moves_left pc
  Move-moves h h' job pc pc' (acquire refresh e free e' f) =
      omega (arith, asking-moves refresh, ap moves_left e, ap moves_left e')
  Move-moves h h' job pc pc' (release attempt refresh e e' f) = omega (
    arith,
    after_key-moves refresh (active_key suite attempt refresh h.client).0,
    ap moves_left e,
    ap moves_left e',
  )
  Move-moves h h' job pc pc' (post attempt refresh k e e' f) = omega (
    arith,
    after_reply-moves refresh k (posted suite attempt h job k).result,
    ap moves_left e,
    ap moves_left e',
  )

  -- Every step uses up one of the moves that are left.
  Step-moves :
      (s s' : System Pub Key)
      → Step suite s s'
      → weigh moves_left s'.workers < weigh moves_left s.workers
  Step-moves s s' (move before after job pc pc' e e' moved) = omega (
    arith,
    Move-moves s.shared s'.shared job pc pc' moved,
    weigh-move moves_left s.workers s'.workers before after job pc pc' e e',
  )

  after_reply-posts :
      (refresh : Bool) (k : HpkePublicKey Pub) (r : Result Error Text)
      → posts_left (after_reply suite refresh r) + 1 ≤ posts_left (keyed refresh k)
  after_reply-posts true k r = omega arith
  after_reply-posts false k r = elim (Bool-cases (key_unknown suite r)) [
    | inl e ↦ rw e (omega arith)
    | inr e ↦ rw e (omega arith)
  ]

  after_key-posts :
      (refresh : Bool) (r : Result Error (HpkePublicKey Pub))
      → posts_left (after_key suite refresh r) ≤ posts_left {Pub = Pub} (holding refresh)
  after_key-posts refresh (ok k) = omega arith
  after_key-posts true (err e) = omega arith
  after_key-posts false (err e) = elim (Bool-cases (key_unknown suite (err e))) [
    | inl h ↦ rw h (omega arith)
    | inr h ↦ rw h (omega arith)
  ]

  transmit-requests :
      (attempt : Attempt) (c : Client Pub) (r : Result Error (Sent × Text))
      → length (transmit suite attempt c r).requests ≤ 1
  transmit-requests attempt c (err e) = omega arith
  transmit-requests attempt c (ok (sent, opener)) = omega arith

  tagged-length :
      (job : Job Key) (requests : List Sent)
      → length (map {B = Job Key × Sent} (λ sent. (job, sent)) requests) ≡ length requests
  tagged-length job [] = refl
  tagged-length job (sent ∷ requests) = ap suc (tagged-length job requests)

  Move-posts :
      (h h' : Shared Pub Key) (job : Job Key) (pc pc' : Pc Pub)
      → Move suite h h' job pc pc'
      → length h'.wire + posts_left pc' ≤ length h.wire + posts_left pc
  Move-posts h h' job pc pc' (acquire refresh e free e' f) = rw (e, e', f) (omega arith)
  Move-posts h h' job pc pc' (release attempt refresh e e' f) =
      rw (e, e', f)
        (omega (arith, after_key-posts refresh (active_key suite attempt refresh h.client).0))
  Move-posts h h' job pc pc' (post attempt refresh k e e' f) =
      let x = posted suite attempt h job k in
      rw (e, e', f)
        (omega (
          arith,
          after_reply-posts refresh k x.result,
          length-append h.wire (map (λ sent. (job, sent)) x.requests),
          tagged-length job x.requests,
          transmit-requests attempt h.client (prepare suite attempt job.path job.raw job.cred k),
        ))

  abbrev pub spent : System Pub Key → ℕ
  spent s = length s.shared.wire + weigh posts_left s.workers

  Step-posts : (s s' : System Pub Key) → Step suite s s' → spent s' ≤ spent s
  Step-posts s s' (move before after job pc pc' e e' moved) = omega (
    arith,
    Move-posts s.shared s'.shared job pc pc' moved,
    weigh-move posts_left s.workers s'.workers before after job pc pc' e e',
  )

  -- The steps of a run.
  unfoldable pub steps : (s s' : System Pub Key) → Reach suite s s' → ℕ
  steps s s' here = 0
  steps s s' (next {t} r st) = steps s t r + 1

  pub Reach-spent :
      (s s' : System Pub Key) (r : Reach suite s s')
      → (steps s s' r + weigh moves_left s'.workers ≤ weigh moves_left s.workers)
        × (spent s' ≤ spent s)
  unfolding steps
  Reach-spent s s' here = (omega arith, omega arith)
  Reach-spent s s' (next {t} r st) =
      let (few, cheap) = Reach-spent s t r in
      (omega (arith, few, Step-moves t s' st), omega (arith, cheap, Step-posts t s' st))

  -- What the calls may do at the start.
  pub calling-spent :
      (jobs : List (Job Key))
      → (weigh {Pub = Pub} moves_left (calling jobs) ≡ 6 * length jobs)
        × (weigh {Pub = Pub} posts_left (calling jobs) ≡ 2 * length jobs)
  unfolding weigh
  calling-spent [] = (omega arith, omega arith)
  calling-spent (job ∷ jobs) =
      let (moves, posts) = calling-spent jobs in (omega (arith, moves), omega (arith, posts))
