-- ===== src/Auth/Flows.antt =====
-- internal/auth/flows.go: enrolment and renewal over a Persister. The files, the clock, X.509 and the
-- two brain clients are the record `Outside`; logging is left out.
pub mod Stored
pub mod Success
pub mod Enrolled
pub mod Rotated
use muthur_collector.Prelude.{
  ℕ, zero, Bool, true, false, not, ◌||◌, Option, none, some, List, [], ◌∷◌, Text, text, ◌==◌,
  bytes_eq, if◌then◌else◌,
}
use muthur_collector.Prelude.Int.{ℤ, pos, ltb_ℤ}
use muthur_collector.Prelude.Result.{Result, ok, err, ◌>>=◌}
use muthur_collector.Prelude.Strings.{trim_space}
use muthur_collector.Errors.{Error, other, wrap}
use muthur_collector.Auth.Crypto.{context}
use muthur_collector.Auth.KeyPair.{CertMaterial, Files, Write, Run, exists_on, write_material}
use muthur_collector.Auth.KeyPair.Csr.{CsrTools, generate_csr}
use muthur_collector.Auth.Persister.{Material, Persister}

-- enrolmentClient: the certificate and the CA that the brain returns.
pub record Enrolment (Cred : Type 0) : Type 0 where
  pub bootstrap : Text → Text → Text → Result Error (Text × Text)
  pub renew : Cred → Text → Result Error (Text × Text)

-- The bundle that a client is given: the path of a file, or what was written to a temporary one.
pub data CaBundle : Type 0 where
  ca_path : Text → CaBundle
  ca_content : Text → CaBundle

pub record Outside (Cred : Type 0) : Type 0 where
  pub read_token : Text → Result Error Text
  -- what GenerateCSR calls, with keys that are texts and URLs that are texts
  pub csr_tools : CsrTools Text Text
  -- NewSignedClient, of a URL and two bundles, and NewBrainClient
  pub new_signed_client : Text → CaBundle → Text → Result Error (Enrolment Cred)
  pub new_brain_client : Text → CaBundle → Result Error (Enrolment Cred)
  -- os.CreateTemp and the Write to it
  pub create_temp : Option Error
  pub write_temp : Option Error
  -- tls.X509KeyPair
  pub key_pair : Text → Text → Result Error Cred
  -- pem.Decode: the bytes of the first block
  pub decode_pem : Text → Option Text
  -- x509.ParseCertificate: NotAfter
  pub parse_certificate : Text → Result Error ℤ
  -- time.Time.Sub
  pub time_sub : ℤ → ℤ → ℤ
  pub now : ℤ

-- The requests that a run made of the brain.
pub data Call (Cred : Type 0) : Type 0 where
  bootstrap_call : Text → Text → Text → Call Cred
  renew_call : Cred → Text → Call Cred

-- What a run returns, what is stored after it, and its calls.
pub record FlowRun (Cred S : Type 0) : Type 0 where
  pub error : Option Error
  pub stored : S
  pub calls : List (Call Cred)

pub record BootstrapFlow (S : Type 0) : Type 0 where
  pub cluster_id : Text
  pub tenant_id : Text
  pub brain_url : Text
  pub transport : Text
  pub edge_ca_file : Text
  pub bootstrap_token_file : Text
  pub vendor_ca_file : Text
  pub persister : Option (Persister S)

pub record RenewFlow (S : Type 0) : Type 0 where
  pub cluster_id : Text
  pub tenant_id : Text
  pub brain_url : Text
  pub transport : Text
  pub edge_ca_file : Text
  pub vendor_ca_file : Text
  pub persister : Option (Persister S)
  pub renew_before : ℤ

abbrev error_if : Text → Option Error → Result Error (Unit {0})
error_if message none = ok tt
error_if message (some e) = context message (err e)

abbrev non_empty_token : Text → Result Error Text
non_empty_token [] = err (other (text "bootstrap: token file is empty"))
non_empty_token (c ∷ token) = ok (c ∷ token)

-- Whether the certificate is fresh; one that does not parse is not.
abbrev longer_than : ℤ → Result Error ℤ → Bool
longer_than renew_before (err e) = false
longer_than renew_before (ok remaining) = ltb_ℤ renew_before remaining

module _ {Cred : Type 0} (outside : Outside Cred) where
  unfoldable pub new_enrolment_client :
      Text → Text → CaBundle → Text → Result Error (Enrolment Cred)
  new_enrolment_client transport brain_url ca_file edge_ca_file =
      if transport == text "signed"
      then outside.new_signed_client brain_url ca_file edge_ca_file
      else outside.new_brain_client brain_url ca_file

  abbrev parsed_remaining : ℤ → Option Text → Result Error ℤ
  parsed_remaining now none = err (other (text "no PEM block in cert"))
  parsed_remaining now (some bytes) = do
    not_after ← context (text "parse cert") (outside.parse_certificate bytes)
    ok (outside.time_sub not_after now)

  unfoldable pub cert_remaining : Text → ℤ → Result Error ℤ
  cert_remaining cert_pem now = parsed_remaining now (outside.decode_pem cert_pem)

  module _ {S : Type 0} where
    abbrev failed : Error → S → List (Call Cred) → FlowRun Cred S
    failed e s calls = record { error = some e; stored = s; calls = calls }

    abbrev done : S → FlowRun Cred S
    done s = record { error = none; stored = s; calls = [] }

    abbrev persisted : List (Call Cred) → Option Error × S → FlowRun Cred S
    persisted calls (some e, s) = failed (wrap (text "persist material") e) s calls
    persisted calls (none, s) = record { error = none; stored = s; calls = calls }

    -- With the reply of the brain and the new key.
    abbrev persist :
        Persister S → Text → S → List (Call Cred) → Result Error (Text × Text) → FlowRun Cred S
    persist p key s calls (err e) = failed e s calls
    persist p key s calls (ok (cert, ca)) =
        persisted calls (p.write (record { cert = cert; key = key; ca = ca }) s)

    -- What precedes the call: the token, the request, its key and the client.
    unfoldable pub prepare_bootstrap :
        BootstrapFlow S → Result Error (Text × Text × Text × Enrolment Cred)
    unfolding trim_space generate_csr new_enrolment_client
    prepare_bootstrap flow = do
      bytes ← context (text "read bootstrap token") (outside.read_token flow.bootstrap_token_file)
      token ← non_empty_token (trim_space bytes)
      (csr, key) ←
          context (text "generate CSR")
            (generate_csr outside.csr_tools flow.tenant_id flow.cluster_id)
      client ← context (text "brain client") (
          new_enrolment_client flow.transport flow.brain_url (ca_path flow.vendor_ca_file)
            flow.edge_ca_file)
      ok (token, csr, key, client)

    abbrev enrol :
        BootstrapFlow S
        → Persister S
        → S
        → Result Error (Text × Text × Text × Enrolment Cred)
        → FlowRun Cred S
    enrol flow p s (err e) = failed e s []
    enrol flow p s (ok (token, csr, key, client)) =
        persist p key s (bootstrap_call flow.cluster_id token csr ∷ [])
          (context (text "bootstrap call") (client.bootstrap flow.cluster_id token csr))

    abbrev bootstrap_unless : BootstrapFlow S → Persister S → S → Result Error Bool → FlowRun Cred S
    bootstrap_unless flow p s (err e) = failed (wrap (text "check existing cert") e) s []
    bootstrap_unless flow p s (ok true) = done s
    bootstrap_unless flow p s (ok false) = enrol flow p s (prepare_bootstrap flow)

    abbrev bootstrap_with : BootstrapFlow S → S → Option (Persister S) → FlowRun Cred S
    bootstrap_with flow s none = failed (other (text "bootstrap: Persister is required")) s []
    bootstrap_with flow s (some p) =
        if flow.cluster_id == [] || flow.brain_url == []
        then failed (other (text "bootstrap: ClusterID and BrainURL are required")) s []
        else bootstrap_unless flow p s (p.exists s)

    -- BootstrapFlow.Run
    unfoldable pub run_bootstrap : BootstrapFlow S → S → FlowRun Cred S
    unfolding prepare_bootstrap
    run_bootstrap flow s = bootstrap_with flow s flow.persister

    unfoldable pub is_fresh : RenewFlow S → Text → Bool
    unfolding cert_remaining
    is_fresh flow cert_pem =
        if ltb_ℤ (pos 0) flow.renew_before
        then longer_than flow.renew_before (cert_remaining cert_pem outside.now)
        else false

    -- The bundle of the flow, or a temporary file with the stored one.
    abbrev renewal_bundle : RenewFlow S → Text → Result Error CaBundle
    renewal_bundle flow ca =
        if not (flow.vendor_ca_file == []) then ok (ca_path flow.vendor_ca_file) else (do
          created ← error_if (text "temp CA file") outside.create_temp
          written ← error_if (text "write temp CA") outside.write_temp
          ok (ca_content ca))

    unfoldable pub prepare_renewal :
        RenewFlow S → Material → Result Error (Cred × Text × Text × Enrolment Cred)
    unfolding generate_csr new_enrolment_client
    prepare_renewal flow m = do
      cred ← context (text "parse current keypair") (outside.key_pair m.cert m.key)
      (csr, key) ←
          context (text "generate CSR")
            (generate_csr outside.csr_tools flow.tenant_id flow.cluster_id)
      bundle ← renewal_bundle flow m.ca
      client ←
          context (text "brain client")
            (new_enrolment_client flow.transport flow.brain_url bundle flow.edge_ca_file)
      ok (cred, csr, key, client)

    abbrev rotate :
        Persister S → S → Result Error (Cred × Text × Text × Enrolment Cred) → FlowRun Cred S
    rotate p s (err e) = failed e s []
    rotate p s (ok (cred, csr, key, client)) =
        persist p key s (renew_call cred csr ∷ [])
          (context (text "renew call") (client.renew cred csr))

    abbrev renew_read : RenewFlow S → Persister S → S → Result Error Material → FlowRun Cred S
    renew_read flow p s (err e) = failed (wrap (text "read current cert") e) s []
    renew_read flow p s (ok m) =
        if is_fresh flow m.cert then done s else rotate p s (prepare_renewal flow m)

    abbrev renew_if : RenewFlow S → Persister S → S → Result Error Bool → FlowRun Cred S
    renew_if flow p s (err e) = failed (wrap (text "check existing cert") e) s []
    renew_if flow p s (ok false) =
        failed (other (text "renew: no existing cert; bootstrap must run first")) s []
    renew_if flow p s (ok true) = renew_read flow p s (p.read s)

    abbrev renew_with : RenewFlow S → S → Option (Persister S) → FlowRun Cred S
    renew_with flow s none = failed (other (text "renew: Persister is required")) s []
    renew_with flow s (some p) =
        if flow.cluster_id == [] || flow.brain_url == []
        then failed (other (text "renew: ClusterID and BrainURL are required")) s []
        else renew_if flow p s (p.exists s)

    -- RenewFlow.Run
    unfoldable pub run_renew : RenewFlow S → S → FlowRun Cred S
    unfolding is_fresh prepare_renewal
    run_renew flow s = renew_with flow s flow.persister
