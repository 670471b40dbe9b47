-- ===== src/Auth/Flows/Success.antt =====
-- What a bootstrap that reports success did, over any store.
use muthur_collector.Prelude.{
  ◌≡◌, refl, ◌⊎◌, inl, inr, Bool, true, false, ◌||◌, Option, none, some, List, [], Text, ◌==◌,
  bytes_eq, Bool-cases,
}
use muthur_collector.Prelude.Result.{Result, ok, err}
use muthur_collector.Errors.{Error}
use muthur_collector.Auth.Persister.{Material, Persister}
use muthur_collector.Auth.Flows.{
  Enrolment, Outside, Call, BootstrapFlow, persist, persisted, enrol, bootstrap_unless,
  bootstrap_with, prepare_bootstrap, run_bootstrap,
}

module _ {Cred S : Type 0} (outside : Outside Cred) (p : Persister S) where
  -- A certificate was there, or one was written.
  abbrev pub IsLeft : S → S → Type 0
  IsLeft s s' = ((p.exists s ≡ ok true) × (s' ≡ s)) ⊎ ((m : Material) × (p.write m s ≡ (none, s')))

  persisted-eq :
      (m : Material) (s : S) (calls : List (Call Cred)) (r : Option Error × S)
      → p.write m s ≡ r
      → (persisted outside calls r).error ≡ none
      → IsLeft s (persisted outside calls r).stored
  persisted-eq m s calls (some e, s') written h = absurd cc
  persisted-eq m s calls (none, s') written h = inr (m, written)

  persist-IsLeft :
      (key : Text) (s : S) (calls : List (Call Cred)) (reply : Result Error (Text × Text))
      → (persist outside p key s calls reply).error ≡ none
      → IsLeft s (persist outside p key s calls reply).stored
  persist-IsLeft key s calls (err e) h = absurd cc
  persist-IsLeft key s calls (ok (cert, ca)) h =
      let m : Material = record { cert = cert; key = key; ca = ca } in
      persisted-eq m s calls (p.write m s) refl h

  module _ (flow : BootstrapFlow S) (s : S) where
    enrol-IsLeft :
        (prepared : Result Error (Text × Text × Text × Enrolment Cred))
        → (enrol outside flow p s prepared).error ≡ none
        → IsLeft s (enrol outside flow p s prepared).stored
    enrol-IsLeft (err e) h = absurd cc
    enrol-IsLeft (ok (token, csr, key, client)) h = persist-IsLeft key s _ _ h

    bootstrap_unless-IsLeft :
        (found : Result Error Bool)
        → p.exists s ≡ found
        → (bootstrap_unless outside flow p s found).error ≡ none
        → IsLeft s (bootstrap_unless outside flow p s found).stored
    bootstrap_unless-IsLeft (err e) there h = absurd cc
    bootstrap_unless-IsLeft (ok true) there h = inl (there, refl)
    bootstrap_unless-IsLeft (ok false) there h = enrol-IsLeft (prepare_bootstrap outside flow) h

    bootstrap_with-IsLeft :
        (bootstrap_with outside flow s (some p)).error ≡ none
        → IsLeft s (bootstrap_with outside flow s (some p)).stored
    bootstrap_with-IsLeft h = elim (Bool-cases (flow.cluster_id == [] || flow.brain_url == [])) [
      | inl missing ↦ absurd (let stop : some _ ≡ none = rw missing at h in cc stop)
      | inr there ↦ rw there (bootstrap_unless-IsLeft (p.exists s) refl (rw there at h))
    ]

    pub run_bootstrap-IsLeft :
        flow.persister ≡ some p
        → (run_bootstrap outside flow s).error ≡ none
        → IsLeft s (run_bootstrap outside flow s).stored
    unfolding run_bootstrap
    run_bootstrap-IsLeft with_p h = rw with_p (bootstrap_with-IsLeft (rw with_p at h))

    bootstrap_with-idle :
        p.exists s ≡ ok true
        → ((bootstrap_with outside flow s (some p)).calls ≡ [])
          × ((bootstrap_with outside flow s (some p)).stored ≡ s)
    bootstrap_with-idle there = elim (Bool-cases (flow.cluster_id == [] || flow.brain_url == [])) [
      | inl missing ↦ rw missing (refl, refl)
      | inr fine ↦ rw (fine, there) (refl, refl)
    ]

    -- With a certificate in the store, a bootstrap asks for nothing and leaves the store as it is.
    pub run_bootstrap-idle :
        flow.persister ≡ some p
        → p.exists s ≡ ok true
        → ((run_bootstrap outside flow s).calls ≡ []) × ((run_bootstrap outside flow s).stored ≡ s)
    unfolding run_bootstrap
    run_bootstrap-idle with_p there = rw with_p (bootstrap_with-idle there)
