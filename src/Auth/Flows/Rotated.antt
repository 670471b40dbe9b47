-- ===== src/Auth/Flows/Rotated.antt =====
-- What a run of the renewal leaves in the store.
use muthur_collector.Prelude.{◌≡◌, true, false, Option, some, [], ◌∷◌, Text, text, bytes_eq}
use muthur_collector.Prelude.Result.{Result, ok}
use muthur_collector.Auth.Crypto.{context}
use muthur_collector.Auth.Persister.{Material, Persister, is_pair}
use muthur_collector.Auth.Flows.{
  Enrolment, Outside, renew_call, FlowRun, RenewFlow, prepare_renewal, is_fresh,
}
use muthur_collector.Auth.Flows.Stored.{IsStored}

module _ {Cred S : Type 0} (outside : Outside Cred) (p : Persister S)
    (contents : S → Option Material) where
  -- A renewal: the brain answered a fresh request under the stored pair, which was not fresh, and the
  -- answer is stored with the key of that request.
  pub record IsRotated (flow : RenewFlow S) (s : S) (r : FlowRun Cred S) : Type 0 where
    pub old : Material
    pub found : contents s ≡ some old
    pub pair : is_pair old ≡ true
    pub expiring : is_fresh outside flow old.cert ≡ false
    pub cred : Cred
    pub csr : Text
    pub key : Text
    pub client : Enrolment Cred
    pub prepared : prepare_renewal outside flow old ≡ ok (cred, csr, key, client)
    pub stored :
        IsStored outside p contents key s (context (text "renew call") (client.renew cred csr)) r
    pub calls : r.calls ≡ renew_call cred csr ∷ []
