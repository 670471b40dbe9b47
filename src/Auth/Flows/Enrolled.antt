-- ===== src/Auth/Flows/Enrolled.antt =====
-- What a run of the bootstrap leaves in the store.
use mathlib.Core.Path.{subst}
use muthur_collector.Prelude.{
  ◌≡◌, refl, sym, ◌∙◌, ◌⊎◌, inl, inr, Bool, true, false, ◌||◌, Option, none, some, List, [], ◌∷◌,
  Text, text, ◌==◌, bytes_eq, arith, Bool-cases,
}
use muthur_collector.Prelude.Result.{Result, ok, err}
use muthur_collector.Errors.{Error, wrap}
use muthur_collector.Auth.Crypto.{context}
use muthur_collector.Auth.Persister.{
  Material, Persister, IsPersister, is_pair, is_provisioned, with_kept_ca,
}
use muthur_collector.Auth.Flows.{
  Enrolment, Outside, Call, bootstrap_call, FlowRun, BootstrapFlow, enrol, bootstrap_unless,
  bootstrap_with, prepare_bootstrap, run_bootstrap,
}
use muthur_collector.Auth.Flows.Stored.{
  IsStored, IsIdle, persist-cases, persist-calls, refused-IsIdle,
}

is_pair-with_kept_ca :
    (m : Material) (old : Option Material) → is_pair (with_kept_ca m old) ≡ is_pair m
is_pair-with_kept_ca m none = refl
is_pair-with_kept_ca m (some old) = ground arith

module _ {Cred S : Type 0} (outside : Outside Cred) (p : Persister S)
    (contents : S → Option Material) where
  -- An enrolment: the brain answered a token and a fresh request, and the answer is stored with the
  -- key of that request.
  pub record IsEnrolled (flow : BootstrapFlow S) (s : S) (r : FlowRun Cred S) : Type 0 where
    pub missing : is_provisioned (contents s) ≡ false
    pub token : Text
    pub csr : Text
    pub key : Text
    pub client : Enrolment Cred
    pub prepared : prepare_bootstrap outside flow ≡ ok (token, csr, key, client)
    pub stored :
        IsStored outside p contents key s
          (context (text "bootstrap call") (client.bootstrap flow.cluster_id token csr))
          r
    pub calls : r.calls ≡ bootstrap_call flow.cluster_id token csr ∷ []

  module _ (law : IsPersister p contents) where
    enrol-cases :
        (flow : BootstrapFlow S) (s : S)
        (prepared : Result Error (Text × Text × Text × Enrolment Cred))
        → is_provisioned (contents s) ≡ false
        → prepare_bootstrap outside flow ≡ prepared
        → IsIdle outside p contents s (enrol outside flow p s prepared)
          ⊎ IsEnrolled flow s (enrol outside flow p s prepared)
    enrol-cases flow s (err e) missing made =
        inl (refused-IsIdle outside p contents law s _ (refl, e, refl) (omega arith))
    enrol-cases flow s (ok (token, csr, key, client)) missing made =
        let calls : List (Call Cred) = bootstrap_call flow.cluster_id token csr ∷ [] in
        let reply = context (text "bootstrap call") (client.bootstrap flow.cluster_id token csr) in
        let same = persist-calls outside p contents law s key calls reply in
        elim (persist-cases outside p contents law s key calls reply) [
          | inl refused ↦
              inl (refused-IsIdle outside p contents law s _ refused (rw same (omega arith)))
          | inr stored ↦ inr (record {
            missing = missing;
            token = token;
            csr = csr;
            key = key;
            client = client;
            prepared = made;
            stored = stored;
            calls = same;
          })
        ]

    bootstrap_unless-cases :
        (flow : BootstrapFlow S) (s : S) (found : Result Error Bool)
        → p.exists s ≡ found
        → IsIdle outside p contents s (bootstrap_unless outside flow p s found)
          ⊎ IsEnrolled flow s (bootstrap_unless outside flow p s found)
    bootstrap_unless-cases flow s (err e) found = inl (
        refused-IsIdle outside p contents law s _ (refl, wrap (text "check existing cert") e, refl)
          (omega arith))
    bootstrap_unless-cases flow s (ok true) found = inl (record {
      kept = refl;
      calls = omega arith;
      quiet = λ fine. (refl, sym (law.exists_sound s true found));
    })
    bootstrap_unless-cases flow s (ok false) found =
        enrol-cases flow s (prepare_bootstrap outside flow) (sym (law.exists_sound s false found))
          refl

    bootstrap_with-cases :
        (flow : BootstrapFlow S) (s : S)
        → IsIdle outside p contents s (bootstrap_with outside flow s (some p))
          ⊎ IsEnrolled flow s (bootstrap_with outside flow s (some p))
    bootstrap_with-cases flow s =
        elim (Bool-cases (flow.cluster_id == [] || flow.brain_url == [])) [
          | inl missing ↦
              rw missing
                (inl (refused-IsIdle outside p contents law s _ (refl, _, refl) (omega arith)))
          | inr given ↦ rw given (bootstrap_unless-cases flow s (p.exists s) refl)
        ]

    IsEnrolled-provisions :
        (flow : BootstrapFlow S) (s : S) (r : FlowRun Cred S)
        → IsEnrolled flow s r
        → is_provisioned (contents r.stored) ≡ true
    IsEnrolled-provisions flow s r e =
        let (cert, ca, _, _, pair, stored) = e.stored in
        rw stored
          (is_pair-with_kept_ca (record { cert = cert; key = e.key; ca = ca }) (contents s) ∙ pair)

    IsIdle-provisions :
        (s : S) (r : FlowRun Cred S)
        → IsIdle outside p contents s r
        → r.error ≡ none
        → is_provisioned (contents r.stored) ≡ true
    IsIdle-provisions s r i fine = rw (i.kept) ((i.quiet fine).1)

    bootstrap_unless-spares :
        (flow : BootstrapFlow S) (s : S) (found : Result Error Bool)
        → is_provisioned (contents s) ≡ true
        → p.exists s ≡ found
        → ((bootstrap_unless outside flow p s found).calls ≡ [])
          × ((bootstrap_unless outside flow p s found).stored ≡ s)
    bootstrap_unless-spares flow s (err e) there found = (refl, refl)
    bootstrap_unless-spares flow s (ok true) there found = (refl, refl)
    bootstrap_unless-spares flow s (ok false) there found =
        cc (law.exists_sound s false found, there)

    bootstrap_with-spares :
        (flow : BootstrapFlow S) (s : S)
        → is_provisioned (contents s) ≡ true
        → ((bootstrap_with outside flow s (some p)).calls ≡ [])
          × ((bootstrap_with outside flow s (some p)).stored ≡ s)
    bootstrap_with-spares flow s there =
        elim (Bool-cases (flow.cluster_id == [] || flow.brain_url == [])) [
          | inl missing ↦ rw missing ((refl, refl))
          | inr given ↦ rw given (bootstrap_unless-spares flow s (p.exists s) there refl)
        ]

pub run_bootstrap-cases :
    {Cred S : Type 0} (outside : Outside Cred) (p : Persister S) (contents : S → Option Material)
    (flow : BootstrapFlow S) (s : S)
    → IsPersister p contents
    → flow.persister ≡ some p
    → let r = run_bootstrap outside flow s in
      IsIdle outside p contents s r ⊎ IsEnrolled outside p contents flow s r
unfolding run_bootstrap
run_bootstrap-cases outside p contents flow s law there =
    subst
      (λ o.
        IsIdle outside p contents s (bootstrap_with outside flow s o)
        ⊎ IsEnrolled outside p contents flow s (bootstrap_with outside flow s o))
      (sym there) (bootstrap_with-cases outside p contents law flow s)

-- After a run of the bootstrap that reported success, another one, whatever it meets, asks nothing of
-- the brain and leaves the store as it is.
pub run_bootstrap-idempotent :
    {Cred S : Type 0} (outside outside' : Outside Cred) (p p' : Persister S)
    (contents : S → Option Material) (flow flow' : BootstrapFlow S) (s : S)
    → IsPersister p contents
    → IsPersister p' contents
    → flow.persister ≡ some p
    → flow'.persister ≡ some p'
    → let r = run_bootstrap outside flow s in
      let r' = run_bootstrap outside' flow' r.stored in
      r.error ≡ none → (r'.calls ≡ []) × (r'.stored ≡ r.stored)
unfolding run_bootstrap
run_bootstrap-idempotent outside outside' p p' contents flow flow' s law law' there there' fine =
    let r = run_bootstrap outside flow s in
    let provisioned : is_provisioned (contents r.stored) ≡ true =
      elim (run_bootstrap-cases outside p contents flow s law there) [
        | inl idle ↦ IsIdle-provisions outside p contents law s r idle fine
        | inr enrolled ↦ IsEnrolled-provisions outside p contents law flow s r enrolled
      ] in
    subst
      (λ o.
        ((bootstrap_with outside' flow' r.stored o).calls ≡ [])
        × ((bootstrap_with outside' flow' r.stored o).stored ≡ r.stored))
      (sym there') (bootstrap_with-spares outside' p' contents law' flow' r.stored provisioned)
