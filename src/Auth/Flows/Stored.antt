-- ===== src/Auth/Flows/Stored.antt =====
-- What a run of a flow may do to the store.
use muthur_collector.Prelude.{
  ◌≤◌, ◌≡◌, refl, ◌⊎◌, inl, inr, true, Option, none, some, List, [], Text, text, bytes_eq, length,
  arith, Option-cases,
}
use muthur_collector.Prelude.Result.{Result, ok, err}
use muthur_collector.Errors.{Error, wrap}
use muthur_collector.Auth.Persister.{
  Material, Persister, IsPersister, is_pair, is_provisioned, with_kept_ca,
}
use muthur_collector.Auth.Flows.{Outside, Call, FlowRun, failed, persisted, persist}

module _ {Cred S : Type 0} (outside : Outside Cred) (p : Persister S)
    (contents : S → Option Material) where
  -- The reply of the brain was stored with the key of the request.
  abbrev pub IsStored : Text → S → Result Error (Text × Text) → FlowRun Cred S → Type 0
  IsStored key s reply r =
      (cert : Text) × (ca : Text) × (reply ≡ ok (cert, ca))
      × (r.error ≡ none)
      × (is_pair (record { cert = cert; key = key; ca = ca }) ≡ true)
      × (contents r.stored
          ≡ some (with_kept_ca (record { cert = cert; key = key; ca = ca }) (contents s)))

  -- Nothing was stored, and an error was returned.
  abbrev pub IsRefused : S → FlowRun Cred S → Type 0
  IsRefused s r = (r.stored ≡ s) × (e : Error) × (r.error ≡ some e)

  -- A run that left the store as it was.
  pub record IsIdle (s : S) (r : FlowRun Cred S) : Type 0 where
    pub kept : r.stored ≡ s
    pub calls : length r.calls ≤ 1
    -- it made no call if it returned no error
    pub quiet : r.error ≡ none → (r.calls ≡ []) × (is_provisioned (contents s) ≡ true)

  module _ (law : IsPersister p contents) where
    persisted-cases :
        (s : S) (cert key ca : Text) (calls : List (Call Cred)) (o : Option Error × S)
        → p.write (record { cert = cert; key = key; ca = ca }) s ≡ o
        → IsRefused s (persisted outside calls o)
          ⊎ IsStored key s (ok (cert, ca)) (persisted outside calls o)
    persisted-cases s cert key ca calls (some e, s') w =
        inl (law.write_fails _ s s' e w, wrap (text "persist material") e, refl)
    persisted-cases s cert key ca calls (none, s') w =
        let (pair, stored) = law.write_stores _ s s' w in inr (cert, ca, refl, refl, pair, stored)

    pub persist-cases :
        (s : S) (key : Text) (calls : List (Call Cred)) (reply : Result Error (Text × Text))
        → IsRefused s (persist outside p key s calls reply)
          ⊎ IsStored key s reply (persist outside p key s calls reply)
    persist-cases s key calls (err e) = inl (refl, e, refl)
    persist-cases s key calls (ok (cert, ca)) =
        persisted-cases s cert key ca calls (p.write (record { cert = cert; key = key; ca = ca }) s)
          refl

    pub persist-calls :
        (s : S) (key : Text) (calls : List (Call Cred)) (reply : Result Error (Text × Text))
        → (persist outside p key s calls reply).calls ≡ calls
    persist-calls s key calls (err e) = refl
    persist-calls s key calls (ok (cert, ca)) =
        elim (Option-cases (p.write (record { cert = cert; key = key; ca = ca }) s).0) [
          | inl stored ↦ ground arith
          | inr (e, failed) ↦ ground arith
        ]

    pub refused-IsIdle :
        (s : S) (r : FlowRun Cred S) → IsRefused s r → length r.calls ≤ 1 → IsIdle s r
    refused-IsIdle s r (kept, e, failed) small = record {
      kept = kept;
      calls = small;
      quiet = λ fine. cc;
    }
