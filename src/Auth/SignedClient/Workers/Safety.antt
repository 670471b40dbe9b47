-- ===== src/Auth/SignedClient/Workers/Safety.antt =====
-- What calls that share a client keep, however they interleave.
use mathlib.Core.Path.{subst}
use muthur_collector.Prelude.{
  ℕ, ◌+◌, ◌≡◌, refl, ap, sym, ◌∙◌, Bool, true, false, Bool-cases, inl, inr, List, [], ◌∷◌, ◌++◌,
  Text, map, arith, not, ◌&&◌,
}
use muthur_collector.Prelude.All.{All, All-append}
use muthur_collector.Prelude.Result.{Result, ok, err}
use muthur_collector.Errors.{Error}
use muthur_collector.Auth.Sealed.Keys.{HpkePublicKey}
use muthur_collector.Auth.Transport.{Suite, Client, Sent}
use muthur_collector.Auth.VendorKeys.{active_key}
use muthur_collector.Auth.VendorKeys.Vouched.{IsVouched, IsVouchedResult, active_key-IsVouched}
use muthur_collector.Auth.SignedClient.{prepare, key_unknown}
use muthur_collector.Auth.SignedClient.Keys.{IsSealedTo, transmit-IsSafe}
use muthur_collector.Auth.SignedClient.Workers.Weights.{weigh, weigh-move, holds, flag}
use muthur_collector.Auth.SignedClient.Workers.{
  Job, Pc, keyed, Worker, Shared, System, after_key, posted, after_reply, Move, acquire, release,
  post, Step, move, Reach, here, next, calling, idle,
}

module _ {Pub Priv Sender Recipient Block Aead Key SigPub Cert : Type 0}
    (suite : Suite Pub Priv Sender Recipient Block Aead Key SigPub Cert) where
  -- A key in use is vouched for.
  abbrev IsKeyed : Pc Pub → Type 0
  IsKeyed (keyed refresh k) = IsVouched suite k
  IsKeyed _ = Unit

  abbrev IsPosted : Job Key × Sent → Type 0
  IsPosted (job, sent) = IsSealedTo suite job.path job.raw job.cred sent

  pub record IsConsistent (s : System Pub Key) : Type 0 where
    pub vouched : All (IsVouched suite) s.shared.client.keys
    pub keys : All (λ (w : Worker Pub Key). IsKeyed w.pc) s.workers
    pub on_wire : All IsPosted s.shared.wire
    pub exclusive : weigh holds s.workers ≡ flag s.shared.locked

  holds-after_reply :
      (refresh : Bool) (r : Result Error Text) → holds (after_reply suite refresh r) ≡ 0
  holds-after_reply refresh r = elim (Bool-cases (not refresh && key_unknown suite r)) [
    | inl e ↦ rw e refl
    | inr e ↦ rw e refl
  ]

  holds-after_key :
      (refresh : Bool) (r : Result Error (HpkePublicKey Pub))
      → holds (after_key suite refresh r) ≡ 0
  holds-after_key refresh (ok k) = refl
  holds-after_key refresh (err e) = holds-after_reply refresh (err e)

  flag-one : (b : Bool) (n : ℕ) → n + 1 ≡ flag b → n ≡ 0
  flag-one true n h = omega arith
  flag-one false n h = omega arith

  Move-exclusive :
      (h h' : Shared Pub Key) (job : Job Key) (pc pc' : Pc Pub) (n n' : ℕ)
      → Move suite h h' job pc pc'
      → n' + holds pc ≡ n + holds pc'
      → n ≡ flag h.locked
      → n' ≡ flag h'.locked
  Move-exclusive h h' job pc pc' n n' (acquire refresh e free e' f) sum count =
      let now : flag h'.locked ≡ 1 = ap (λ (x : Shared Pub Key). flag x.locked) f in
      omega (arith, now, ap flag free, ap holds e, ap holds e')
  Move-exclusive h h' job pc pc' n n' (release attempt refresh e e' f) sum count =
      let now : flag h'.locked ≡ 0 = ap (λ (x : Shared Pub Key). flag x.locked) f in
      let r = (active_key suite attempt refresh h.client).0 in
      let one : n' + 1 ≡ n = omega (arith, ap holds e, ap holds e', holds-after_key refresh r) in
      omega (arith, now, flag-one h.locked n' (one ∙ count))
  Move-exclusive h h' job pc pc' n n' (post attempt refresh k e e' f) sum count =
      let same : flag h'.locked ≡ flag h.locked = ap (λ (x : Shared Pub Key). flag x.locked) f in
      omega (
        arith,
        same,
        ap holds e,
        ap holds e',
        holds-after_reply refresh (posted suite attempt h job k).result,
      )

  reply-IsKeyed : (refresh : Bool) (r : Result Error Text) → IsKeyed (after_reply suite refresh r)
  reply-IsKeyed refresh r = elim (Bool-cases (not refresh && key_unknown suite r)) [
    | inl e ↦ rw e tt
    | inr e ↦ rw e tt
  ]

  key-IsKeyed :
      (refresh : Bool) (r : Result Error (HpkePublicKey Pub) × Client Pub)
      → IsVouchedResult suite r
      → IsKeyed (after_key suite refresh r.0) × All (IsVouched suite) r.1.keys
  key-IsKeyed refresh (err e, c) v = (reply-IsKeyed refresh (err e), v)
  key-IsKeyed refresh (ok k, c) v = v

  All-IsPosted :
      (job : Job Key) (requests : List Sent)
      → All (IsSealedTo suite job.path job.raw job.cred) requests
      → All IsPosted (map (λ sent. (job, sent)) requests)
  All-IsPosted job [] h = tt
  All-IsPosted job (sent ∷ requests) h = (h.0, All-IsPosted job requests h.1)

  -- What a move keeps of the client, of the key of its worker and of the requests.
  Move-kept :
      (h h' : Shared Pub Key) (job : Job Key) (pc pc' : Pc Pub)
      → Move suite h h' job pc pc'
      → All (IsVouched suite) h.client.keys
      → IsKeyed pc
      → All IsPosted h.wire
      → All (IsVouched suite) h'.client.keys × IsKeyed pc' × All IsPosted h'.wire
  Move-kept h h' job pc pc' (acquire refresh e free e' f) v keyed_pc wire = rw (e', f) (v, tt, wire)
  Move-kept h h' job pc pc' (release attempt refresh e e' f) v keyed_pc wire =
      let (key, vs) =
        key-IsKeyed refresh (active_key suite attempt refresh h.client)
          (active_key-IsVouched suite attempt refresh h.client v) in
      rw (e', f) (vs, key, wire)
  Move-kept h h' job pc pc' (post attempt refresh k e e' f) v keyed_pc wire =
      let x = posted suite attempt h job k in
      let safe =
        transmit-IsSafe suite job.path job.raw job.cred attempt h.client k
          (prepare suite attempt job.path job.raw job.cred k) refl (subst IsKeyed e keyed_pc) v in
      subst
        (λ (y : Shared Pub Key).
          All (IsVouched suite) y.client.keys × IsKeyed pc' × All IsPosted y.wire)
        (sym f)
        (
          v,
          subst IsKeyed (sym e') (reply-IsKeyed refresh x.result),
          All-append IsPosted h.wire _ wire (All-IsPosted job x.requests safe.sealed),
        )

  All-replace :
      {A : Type 0} (P : A → Type 0) (before after : List A) (x y : A)
      → All P (before ++ x ∷ after)
      → P x × (P y → All P (before ++ y ∷ after))
  All-replace P [] after x y h = (h.0, λ p. (p, h.1))
  All-replace P (z ∷ before) after x y h =
      let (p, rest) = All-replace P before after x y h.1 in (p, λ q. (h.0, rest q))

  Step-IsConsistent : (s s' : System Pub Key) → Step suite s s' → IsConsistent s → IsConsistent s'
  Step-IsConsistent s s' (move before after job pc pc' e e' moved) c =
      let P : Worker Pub Key → Type 0 = λ w. IsKeyed w.pc in
      let (key, replaced) =
        All-replace P before after (record { job = job; pc = pc }) (record { job = job; pc = pc' })
          (subst (All P) e c.keys) in
      let (vouched, key', posted_now) =
        Move-kept s.shared s'.shared job pc pc' moved c.vouched key c.on_wire in
      record {
        vouched = vouched;
        keys = subst (All P) (sym e') (replaced key');
        on_wire = posted_now;
        exclusive =
            Move-exclusive s.shared s'.shared job pc pc' (weigh holds s.workers)
              (weigh holds s'.workers) moved
              (weigh-move holds s.workers s'.workers before after job pc pc' e e') c.exclusive;
      }

  pub Reach-IsConsistent :
      (s s' : System Pub Key) → Reach suite s s' → IsConsistent s → IsConsistent s'
  Reach-IsConsistent s s' here c = c
  Reach-IsConsistent s s' (next {t} r st) c = Step-IsConsistent t s' st (Reach-IsConsistent s t r c)

  calling-AllKeyed :
      (jobs : List (Job Key)) → All (λ (w : Worker Pub Key). IsKeyed w.pc) (calling jobs)
  calling-AllKeyed [] = tt
  calling-AllKeyed (job ∷ jobs) = (tt, calling-AllKeyed jobs)

  calling-holds : (jobs : List (Job Key)) → weigh {Pub = Pub} holds (calling jobs) ≡ 0
  unfolding weigh
  calling-holds [] = refl
  calling-holds (job ∷ jobs) = omega (arith, calling-holds jobs)

  -- The start: a client whose keys are vouched for, and no call that has begun.
  pub idle-IsConsistent :
      (c : Client Pub) (jobs : List (Job Key))
      → All (IsVouched suite) c.keys
      → IsConsistent (idle c jobs)
  idle-IsConsistent c jobs v = record {
    vouched = v;
    keys = calling-AllKeyed jobs;
    on_wire = tt;
    exclusive = calling-holds jobs;
  }
