-- ===== src/Auth/SignedClient/Workers/Ends.antt =====
-- Calls that share a client come to their end.
use muthur_collector.Prelude.{
  ◌*◌, ◌≤◌, ◌<◌, ◌≡◌, refl, ap, sym, ◌∙◌, Bool, true, false, Bool-cases, ◌⊎◌, inl, inr, List, [],
  ◌∷◌, ◌++◌, append_assoc, Text, map, arith, length,
}
use muthur_collector.Prelude.All.{All}
use muthur_collector.Prelude.Result.{Result}
use muthur_collector.Errors.{Error}
use muthur_collector.Auth.Transport.{Suite, Attempt, Client}
use muthur_collector.Auth.VendorKeys.{active_key}
use muthur_collector.Auth.VendorKeys.Vouched.{IsVouched}
use muthur_collector.Auth.SignedClient.Workers.Weights.{weigh, holds, flag}
use muthur_collector.Auth.SignedClient.Workers.Safety.{Reach-IsConsistent, idle-IsConsistent}
use muthur_collector.Auth.SignedClient.Workers.Bounds.{Reach-spent, calling-spent, steps}
use muthur_collector.Auth.SignedClient.Workers.{
  Job, Pc, asking, holding, keyed, ended, Worker, System, after_key, posted, after_reply, acquire,
  release, post, Step, move, Reach, idle,
}

module _ {Pub Priv Sender Recipient Block Aead Key SigPub Cert : Type 0}
    (suite : Suite Pub Priv Sender Recipient Block Aead Key SigPub Cert) where
  abbrev pub CanStep : System Pub Key → Type 0
  CanStep s = (s' : System Pub Key) × Step suite s s'

  abbrev pub IsEnded : Worker Pub Key → Type 0
  IsEnded w = (r : Result Error Text) × (w.pc ≡ ended r)

  -- A worker that is not at its end, and is not one that waits for the mutex.
  worker-CanStep :
      (attempt : Attempt) (s : System Pub Key) (before after : List (Worker Pub Key))
      (job : Job Key) (pc : Pc Pub)
      → s.workers ≡ before ++ record { job = job; pc = pc } ∷ after
      → CanStep s
        ⊎ (((r : Result Error Text) × (pc ≡ ended r))
            ⊎ ((refresh : Bool) × (pc ≡ asking refresh) × (s.shared.locked ≡ true)))
  worker-CanStep attempt s before after job (asking refresh) e = elim (Bool-cases s.shared.locked) [
    | inl shut ↦ inr (inr (refresh, refl, shut))
    | inr free ↦ inl (
      record {
        shared = record s.shared { locked = true };
        workers = before ++ record { job = job; pc = holding refresh } ∷ after;
      },
      move before after job (asking refresh) (holding refresh) e refl
          (acquire refresh refl free refl refl),
    )
  ]
  worker-CanStep attempt s before after job (holding refresh) e =
      let got = active_key suite attempt refresh s.shared.client in
      inl (
        record {
          shared = record s.shared { client = got.1; locked = false };
          workers = before ++ record { job = job; pc = after_key suite refresh got.0 } ∷ after;
        },
        move before after job (holding refresh) (after_key suite refresh got.0) e refl
            (release attempt refresh refl refl refl),
      )
  worker-CanStep attempt s before after job (keyed refresh k) e =
      let x = posted suite attempt s.shared job k in
      inl (
        record {
          shared = record s.shared { wire = s.shared.wire ++ map (λ sent. (job, sent)) x.requests };
          workers = before ++ record { job = job; pc = after_reply suite refresh x.result } ∷ after;
        },
        move before after job (keyed refresh k) (after_reply suite refresh x.result) e refl
            (post attempt refresh k refl refl refl),
      )
  worker-CanStep attempt s before after job (ended r) e = inr (inl (r, refl))

  module _ (attempt : Attempt) (s : System Pub Key) where
    regroup :
        (before after : List (Worker Pub Key)) (w : Worker Pub Key)
        → s.workers ≡ before ++ w ∷ after
        → s.workers ≡ (before ++ w ∷ []) ++ after
    regroup before after w e = e ∙ sym (append_assoc before (w ∷ []) after)

    -- A worker that holds the mutex can move.
    holder-CanStep :
        (before rest : List (Worker Pub Key))
        → s.workers ≡ before ++ rest
        → 0 < weigh holds rest
        → CanStep s
    unfolding weigh
    holder-CanStep before [] e some_holder = absurd (omega arith)
    holder-CanStep before (w ∷ rest) e some_holder =
        elim (worker-CanStep attempt s before rest w.job w.pc e) [
          | inl moves ↦ moves
          | inr (inl (r, pc)) ↦
              holder-CanStep (before ++ w ∷ []) rest (regroup before rest w e)
                (omega (arith, ap holds pc))
          | inr (inr (refresh, pc, shut)) ↦
              holder-CanStep (before ++ w ∷ []) rest (regroup before rest w e)
                (omega (arith, ap holds pc))
        ]

    -- Of some workers, one can move or all are at their end.
    progress :
        (before rest : List (Worker Pub Key))
        → s.workers ≡ before ++ rest
        → weigh holds s.workers ≡ flag s.shared.locked
        → CanStep s ⊎ All IsEnded rest
    progress before [] e exclusive = inr tt
    progress before (w ∷ rest) e exclusive =
        elim (worker-CanStep attempt s before rest w.job w.pc e) [
          | inl moves ↦ inl moves
          | inr (inl ended_here) ↦
              elim (progress (before ++ w ∷ []) rest (regroup before rest w e) exclusive) [
                | inl moves ↦ inl moves
                | inr others ↦ inr (ended_here, others)
              ]
          | inr (inr (refresh, pc, shut)) ↦
              inl (holder-CanStep [] s.workers refl (omega (arith, exclusive, ap flag shut)))
        ]

-- Calls that share a client with vouched keys end, whatever the edge replies and however they
-- interleave: while one is not at its end, some call can go on, so the mutex does not deadlock; n calls
-- take at most 6 n steps and post at most 2 n requests together.
pub Reach-ends :
    {Pub Priv Sender Recipient Block Aead Key SigPub Cert : Type 0}
    (suite : Suite Pub Priv Sender Recipient Block Aead Key SigPub Cert) (attempt : Attempt)
    (c : Client Pub) (jobs : List (Job Key)) (s : System Pub Key) (r : Reach suite (idle c jobs) s)
    → All (IsVouched suite) c.keys
    → (CanStep suite s ⊎ All (IsEnded suite) s.workers)
      × (steps suite (idle c jobs) s r ≤ 6 * length jobs)
      × (length s.shared.wire ≤ 2 * length jobs)
Reach-ends suite attempt c jobs s r v =
    let consistent =
      Reach-IsConsistent suite (idle c jobs) s r (idle-IsConsistent suite c jobs v) in
    let (few, cheap) = Reach-spent suite (idle c jobs) s r in
    let (moves, posts) = calling-spent suite jobs in
    (
      progress suite attempt s [] s.workers refl consistent.exclusive,
      omega (arith, few, moves),
      omega (arith, cheap, posts),
    )
