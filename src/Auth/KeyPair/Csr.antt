-- ===== src/Auth/KeyPair/Csr.antt =====
-- GenerateCSR of internal/auth/keypair.go. ECDSA, X.509, PEM and URLs are the record `CsrTools`; its
-- calls are those of one run of GenerateCSR, with the random bytes that they drew.
use muthur_collector.Prelude.{
  Option, none, [], ◌∷◌, ◌++◌, Text, text, ◌==◌, bytes_eq, if◌then◌else◌,
}
use muthur_collector.Prelude.Result.{Result, ok, err, ◌>>=◌}
use muthur_collector.Errors.{Error, other}
use muthur_collector.Auth.Crypto.{context}

-- x509.CertificateRequest: the common name, and the URI if there is one. `U` is url.URL.
pub record Template (U : Type 0) : Type 0 where
  pub common_name : Text
  pub uri : Option U

pub record CsrTools (Key U : Type 0) : Type 0 where
  -- ecdsa.GenerateKey
  pub generate_key : Result Error Key
  -- url.Parse; `none` is an error
  pub parse_url : Text → Option U
  pub create_request : Template U → Key → Result Error Text
  pub marshal_pkcs8 : Key → Result Error Text
  -- pem.EncodeToMemory, of a type and its bytes
  pub encode_pem : Text → Text → Text

module _ {Key U : Type 0} (tools : CsrTools Key U) where
  abbrev template_of : Text → Text → Template U
  template_of tenant_id cluster_id = record {
    common_name = cluster_id;
    uri =
        if tenant_id == []
        then none
        else tools.parse_url (text "spiffe://muthur/" ++ (tenant_id ++ b'/' ∷ cluster_id));
  }

  -- The CSR and the key.
  unfoldable pub generate_csr : Text → Text → Result Error (Text × Text)
  generate_csr tenant_id cluster_id =
      if cluster_id == [] then err (other (text "auth: clusterID required for CSR")) else (do
        priv ← context (text "generate ECDSA key") tools.generate_key
        der ←
            context (text "create CSR")
              (tools.create_request (template_of tenant_id cluster_id) priv)
        key_der ← context (text "marshal key") (tools.marshal_pkcs8 priv)
        ok (
          tools.encode_pem (text "CERTIFICATE REQUEST") der,
          tools.encode_pem (text "PRIVATE KEY") key_der,
        ))
