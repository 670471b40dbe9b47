-- ===== src/Auth/BrainClient.antt =====
-- internal/auth/client.go: the gRPC client of the enrolment. TLS, gRPC, the clock and the nonces are the
-- record `Grpc`.
use muthur_collector.Prelude.{
  ◌||◌, Option, none, some, List, [], ◌∷◌, Text, text, ◌==◌, bytes_eq, if◌then◌else◌,
}
use muthur_collector.Prelude.Int.{ℤ}
use muthur_collector.Prelude.Numbers.{format_int}
use muthur_collector.Prelude.Result.{Result, ok, err, ◌>>=◌}
use muthur_collector.Errors.{Error, other}
use muthur_collector.Auth.Crypto.{context}
use muthur_collector.Auth.Flows.{Enrolment}
use muthur_collector.Auth.Replay.{strip_scheme}

pub record Grpc (Pool Conn Cred : Type 0) : Type 0 where
  -- os.ReadFile and AppendCertsFromPEM
  pub read_file : Text → Result Error Text
  pub certs_from_pem : Text → Option Pool
  -- grpc.NewClient, of a target, the roots and the certificate, if one is presented
  pub dial : Text → Pool → Option Cred → Result Error Conn
  -- BootstrapCert and SignCSR, with the metadata of the request: the certificate and the CA
  pub bootstrap_cert : Conn → List (Text × Text) → Text → Text → Text → Result Error (Text × Text)
  pub sign_csr : Conn → List (Text × Text) → Text → Result Error (Text × Text)
  -- time.Now().Unix() and FreshNonce
  pub unix_now : ℤ
  pub fresh_nonce : Text

pub record BrainClient (Pool : Type 0) : Type 0 where
  pub target : Text
  pub ca_pool : Pool

module _ {Pool Conn Cred : Type 0} (g : Grpc Pool Conn Cred) where
  abbrev pool_of : Option Pool → Result Error Pool
  pool_of none = err (other (text "auth: CA bundle has no usable PEM certificates"))
  pool_of (some pool) = ok pool

  unfoldable pub new_brain_client : Text → Text → Result Error (BrainClient Pool)
  unfolding strip_scheme
  new_brain_client brain_target ca_root_file = do
    pem ← context (text "read CA bundle") (g.read_file ca_root_file)
    pool ← pool_of (g.certs_from_pem pem)
    ok (record { target = strip_scheme brain_target; ca_pool = pool })

  -- The metadata of stampReplay.
  abbrev stamp_replay : List (Text × Text)
  stamp_replay =
      (text "x-muthur-timestamp", format_int g.unix_now)
      ∷ (text "x-muthur-nonce", g.fresh_nonce)
      ∷ []

  abbrev certificate_of : Text × Text → Result Error (Text × Text)
  certificate_of (cert, ca) =
      if cert == [] then err (other (text "brain returned empty certificate")) else ok (cert, ca)

  unfoldable pub bootstrap : BrainClient Pool → Text → Text → Text → Result Error (Text × Text)
  unfolding format_int
  bootstrap c cluster_id token csr =
      if cluster_id == [] || token == [] || csr == []
      then err (other (text "auth: clusterID, token, and CSR are required"))
      else (do
        conn ← context (text "bootstrap dial") (g.dial c.target c.ca_pool none)
        resp ←
            context (text "bootstrap call")
              (g.bootstrap_cert conn stamp_replay cluster_id token csr)
        certificate_of resp)

  unfoldable pub renew : BrainClient Pool → Cred → Text → Result Error (Text × Text)
  unfolding format_int
  renew c client_cert csr = if csr == [] then err (other (text "auth: CSR required")) else (do
    conn ← context (text "renew dial") (g.dial c.target c.ca_pool (some client_cert))
    resp ← context (text "renew call") (g.sign_csr conn stamp_replay csr)
    certificate_of resp)

  -- The client as what the flows need.
  unfoldable pub brain_enrolment : BrainClient Pool → Enrolment Cred
  unfolding bootstrap renew
  brain_enrolment c = record { bootstrap = bootstrap c; renew = renew c }
