-- ===== src/Auth/SignedClient/Endpoints.antt =====
-- internal/auth/signedclient.go: the constructor and the three endpoints. Protocol buffers and URLs are
-- parameters.
use muthur_collector.Prelude.{
  ◌||◌, ◌&&◌, not, Option, none, some, [], ◌++◌, Text, text, ◌==◌, bytes_eq, if◌then◌else◌,
}
use muthur_collector.Prelude.Quote.{quote}
use muthur_collector.Prelude.Result.{Result, ok, err, ◌>>=◌}
use muthur_collector.Prelude.Strings.{trim_space}
use muthur_collector.Errors.{Error, other}
use muthur_collector.Proto.{AlertPayload}
use muthur_collector.Auth.Crypto.{context}
use muthur_collector.Auth.SignedClient.{call}
use muthur_collector.Auth.Transport.{
  Suite, Client, Attempt, Credential, Exchange, signed_path_bootstrap, signed_path_ingest,
  signed_path_sign_csr,
}

-- url.URL
pub record Url : Type 0 where
  pub scheme : Text
  pub host : Text
  pub path : Text
  pub raw_query : Text

-- url.Parse, strings.Trim of the slashes, os.ReadFile and AppendCertsFromPEM
pub record Setup (Pool : Type 0) : Type 0 where
  pub parse_url : Text → Result Error Url
  pub trim_slashes : Text → Text
  pub read_file : Text → Result Error Text
  pub certs_from_pem : Text → Option Pool

-- A new SignedClient: the base URL, the vendor's roots, and those of the edge if they are pinned.
pub record Endpoint (Pool : Type 0) : Type 0 where
  pub base : Text
  pub vendor : Pool
  pub edge : Option Pool

module _ {Pool : Type 0} (setup : Setup Pool) where
  abbrev pool_of : Text → Option Pool → Result Error Pool
  pool_of message none = err (other message)
  pool_of message (some pool) = ok pool

  abbrev check_url : Text → Url → Result Error Url
  check_url base_url u =
      if not (u.scheme == text "https") && not (u.scheme == text "http")
      then err (other (text "auth: brain URL must be http(s)://host, got " ++ quote base_url))
      else if not (setup.trim_slashes u.path == []) || not (u.raw_query == [])
      then err (other (text "auth: brain URL must not carry a path prefix, got " ++ quote base_url))
      else ok u

  abbrev edge_pool : Text → Result Error (Option Pool)
  edge_pool edge_ca_file = if edge_ca_file == [] then ok none else (do
    edge_pem ← context (text "read edge CA bundle") (setup.read_file edge_ca_file)
    pool ←
        pool_of (text "auth: edge CA bundle has no usable PEM certificates")
          (setup.certs_from_pem edge_pem)
    ok (some pool))

  unfoldable pub new_signed_client : Text → Text → Text → Result Error (Endpoint Pool)
  unfolding trim_space quote
  new_signed_client base_url vendor_ca_file edge_ca_file = do
    parsed ← context (text "auth: parse brain URL") (setup.parse_url (trim_space base_url))
    u ← check_url base_url parsed
    vendor_pem ← context (text "read CA bundle") (setup.read_file vendor_ca_file)
    vendor ←
        pool_of (text "auth: CA bundle has no usable PEM certificates")
          (setup.certs_from_pem vendor_pem)
    edge ← edge_pool edge_ca_file
    ok (record { base = u.scheme ++ (text "://" ++ u.host); vendor = vendor; edge = edge })

-- proto.Marshal of the three requests, and proto.Unmarshal of the responses: of the certificate and the
-- CA, and of the empty IngestResponse.
pub record Codec : Type 0 where
  pub encode_bootstrap : Text → Text → Text → Result Error Text
  pub encode_sign_csr : Text → Result Error Text
  pub encode_payload : AlertPayload → Result Error Text
  pub decode_bootstrap : Text → Result Error (Text × Text)
  pub decode_sign_csr : Text → Result Error (Text × Text)
  pub decode_ingest : Text → Result Error (Unit {0})

module _ {Pub Priv Sender Recipient Block Aead Key SigPub Cert : Type 0}
    (suite : Suite Pub Priv Sender Recipient Block Aead Key SigPub Cert) (codec : Codec)
    (first_attempt second_attempt : Attempt) where
  abbrev stopped : {A : Type 0} → Error → Client Pub → Exchange Pub A
  stopped e c = record { result = err e; requests = []; client = c }

  -- `call` of an encoded request, and the decoding of its response.
  abbrev pub call_with :
      {A : Type 0}
      → Text
      → Result Error Text
      → (Text → Result Error A)
      → Option (Credential Key)
      → Client Pub
      → Exchange Pub A
  call_with path (err e) decode cred c = record {
    result = context (text "auth: encode request") (err e);
    requests = [];
    client = c;
  }
  call_with path (ok raw) decode cred c =
      let x = call suite first_attempt second_attempt path raw cred c in
      record {
        result = x.result >>= (λ pt. context (text "auth: decode response") (decode pt));
        requests = x.requests;
        client = x.client;
      }

  abbrev with_certificate : Text × Text → Result Error (Text × Text)
  with_certificate (cert, ca) =
      if cert == [] then err (other (text "brain returned empty certificate")) else ok (cert, ca)

  abbrev answered : Text → Exchange Pub (Text × Text) → Exchange Pub (Text × Text)
  answered message x = record x { result = context message x.result >>= with_certificate }

  -- Bootstrap: sealed, but not signed.
  unfoldable pub bootstrap : Text → Text → Text → Client Pub → Exchange Pub (Text × Text)
  unfolding call
  bootstrap cluster_id token csr c =
      if cluster_id == [] || token == [] || csr == []
      then stopped (other (text "auth: clusterID, token, and CSR are required")) c
      else answered (text "bootstrap call") (
          call_with signed_path_bootstrap (codec.encode_bootstrap cluster_id token csr)
            codec.decode_bootstrap none c)

  -- Renew
  unfoldable pub renew : Credential Key → Text → Client Pub → Exchange Pub (Text × Text)
  unfolding call
  renew client_cert csr c =
      if csr == []
      then stopped (other (text "auth: CSR required")) c
      else answered (text "renew call") (
          call_with signed_path_sign_csr (codec.encode_sign_csr csr) codec.decode_sign_csr
            (some client_cert) c)

  -- Ingest
  unfoldable pub ingest :
      AlertPayload → Option (Credential Key) → Client Pub → Exchange Pub (Unit {0})
  unfolding call
  ingest payload none c = stopped (other (text "auth: client cert required for ingest")) c
  ingest payload (some cred) c =
      call_with signed_path_ingest (codec.encode_payload payload) codec.decode_ingest (some cred) c
