-- ===== src/Auth/SignedClient/Workers.antt =====
-- internal/auth/signedclient.go: calls of one client by several goroutines. The mutex guards activeKey; the
-- rest of a call runs outside of it.
pub mod Weights
pub mod Safety
pub mod Bounds
pub mod Ends
pub mod Alone
use muthur_collector.Prelude.{
  ℕ, ◌+◌, ◌≡◌, Bool, true, false, not, ◌&&◌, Option, List, [], ◌∷◌, ◌++◌, Text, map, if◌then◌else◌,
}
use muthur_collector.Prelude.Result.{Result, ok, err}
use muthur_collector.Errors.{Error}
use muthur_collector.Auth.Sealed.Keys.{HpkePublicKey}
use muthur_collector.Auth.Transport.{Suite, Attempt, Client, Credential, Exchange, Sent}
use muthur_collector.Auth.VendorKeys.{active_key}
use muthur_collector.Auth.SignedClient.{prepare, transmit, key_unknown}

-- The arguments of a call.
pub record Job (Key : Type 0) : Type 0 where
  pub path : Text
  pub raw : Text
  pub cred : Option (Credential Key)

-- Where a call is: before c.mu.Lock, inside activeKey, with a key after c.mu.Unlock, or at its end. The
-- flag is refreshKeys, which tells the second attempt from the first.
pub data Pc (Pub : Type 0) : Type 0 where
  asking holding : Bool → Pc Pub
  keyed : Bool → HpkePublicKey Pub → Pc Pub
  ended : Result Error Text → Pc Pub

pub record Worker (Pub Key : Type 0) : Type 0 where
  pub job : Job Key
  pub pc : Pc Pub

-- The client with its mutex, and every request that was posted, with the call it was posted for.
pub record Shared (Pub Key : Type 0) : Type 0 where
  pub client : Client Pub
  pub locked : Bool
  pub wire : List (Job Key × Sent)

pub record System (Pub Key : Type 0) : Type 0 where
  pub shared : Shared Pub Key
  pub workers : List (Worker Pub Key)

module _ {Pub Priv Sender Recipient Block Aead Key SigPub Cert : Type 0}
    (suite : Suite Pub Priv Sender Recipient Block Aead Key SigPub Cert) where
  -- One POST, and what follows its reply.
  abbrev pub posted : Attempt → Shared Pub Key → Job Key → HpkePublicKey Pub → Exchange Pub Text
  posted attempt h job k =
      transmit suite attempt h.client (prepare suite attempt job.path job.raw job.cred k)

  abbrev pub after_reply : Bool → Result Error Text → Pc Pub
  after_reply refresh reply =
      if not refresh && key_unknown suite reply then asking true else ended reply

  -- After activeKey, whose error may ask for the second attempt as well.
  abbrev pub after_key : Bool → Result Error (HpkePublicKey Pub) → Pc Pub
  after_key refresh (err e) = after_reply refresh (err e)
  after_key refresh (ok k) = keyed refresh k

  -- A move of one worker, whose clock, random bytes and replies are those of `attempt`.
  pub data Move (h h' : Shared Pub Key) (job : Job Key) (pc pc' : Pc Pub) : Type 0 where
    acquire :
        (refresh : Bool)
        → pc ≡ asking refresh
        → h.locked ≡ false
        → pc' ≡ holding refresh
        → h' ≡ record h { locked = true }
        → Move h h' job pc pc'
    release :
        (attempt : Attempt) (refresh : Bool)
        → pc ≡ holding refresh
        → pc' ≡ after_key refresh (active_key suite attempt refresh h.client).0
        → h' ≡ record h { client = (active_key suite attempt refresh h.client).1; locked = false }
        → Move h h' job pc pc'
    post :
        (attempt : Attempt) (refresh : Bool) (k : HpkePublicKey Pub)
        → pc ≡ keyed refresh k
        → pc' ≡ after_reply refresh (posted attempt h job k).result
        → h' ≡ record h {
          wire = h.wire ++ map (λ sent. (job, sent)) (posted attempt h job k).requests;
        }
        → Move h h' job pc pc'

  -- Any worker may be the next to move.
  pub data Step (s s' : System Pub Key) : Type 0 where
    move :
        (before after : List (Worker Pub Key)) (job : Job Key) (pc pc' : Pc Pub)
        → s.workers ≡ before ++ record { job = job; pc = pc } ∷ after
        → s'.workers ≡ before ++ record { job = job; pc = pc' } ∷ after
        → Move s.shared s'.shared job pc pc'
        → Step s s'

  pub data Reach (s : System Pub Key) : System Pub Key → Type 0 where
    here : Reach s s
    next : {t u : System Pub Key} → Reach s t → Step t u → Reach s u

-- A client that nobody uses, and calls that are about to start.
abbrev pub calling : {Key Pub : Type 0} → List (Job Key) → List (Worker Pub Key)
calling jobs = map (λ job. record { job = job; pc = asking false }) jobs

abbrev pub idle : {Key Pub : Type 0} → Client Pub → List (Job Key) → System Pub Key
idle c jobs = record {
  shared = record { client = c; locked = false; wire = [] };
  workers = calling jobs;
}
