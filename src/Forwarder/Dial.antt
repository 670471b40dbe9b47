-- ===== src/Forwarder/Dial.antt =====
-- internal/forwarder/forwarder.go: the constructors of a Forwarder. Files, X.509 and gRPC are the record
-- `Dialer`.
pub mod Made
use muthur_collector.Prelude.{Option, none, some, [], Text, text, ◌==◌, bytes_eq, if◌then◌else◌}
use muthur_collector.Prelude.Result.{Result, ok, err, ◌>>=◌}
use muthur_collector.Errors.{Error, other}
use muthur_collector.Auth.Crypto.{context}
use muthur_collector.Auth.Replay.{strip_scheme}

pub record Dialer (Pool Conn Client Reloader : Type 0) : Type 0 where
  pub read_file : Text → Result Error Text
  pub certs_from_pem : Text → Option Pool
  -- grpc.NewClient, of a target, the roots and the source of the client certificate
  pub dial : Text → Pool → Reloader → Result Error Conn
  -- auth.NewSignedClient
  pub new_signed_client : Text → Text → Text → Result Error Client
  -- ClientConn.Close
  pub close : Conn → Option Error

-- Config, SignedConfig and Forwarder, but for the logger and the unused timeout.
pub record DialConfig (Reloader : Type 0) : Type 0 where
  pub target : Text
  pub ca_root_file : Text
  pub reloader : Option Reloader

pub record SignedConfig (Reloader : Type 0) : Type 0 where
  pub base_url : Text
  pub ca_root_file : Text
  pub edge_ca_file : Text
  pub reloader : Option Reloader

pub record Dialled (Conn Client Reloader : Type 0) : Type 0 where
  pub conn : Option Conn
  pub signed : Option Client
  pub reloader : Option Reloader

module _ {Pool Conn Client Reloader : Type 0} (d : Dialer Pool Conn Client Reloader) where
  abbrev pool_of : Option Pool → Result Error Pool
  pool_of none = err (other (text "CA root file has no usable PEM certificates"))
  pool_of (some pool) = ok pool

  unfoldable pub load_ca_pool : Text → Result Error Pool
  load_ca_pool path = if path == [] then err (other (text "CA root file path is required")) else (do
    pem_bytes ← context (text "read CA") (d.read_file path)
    pool_of (d.certs_from_pem pem_bytes))

  abbrev required : Text → Option Reloader → Result Error Reloader
  required message none = err (other message)
  required message (some r) = ok r

  -- New
  unfoldable pub new_forwarder : DialConfig Reloader → Result Error (Dialled Conn Client Reloader)
  unfolding load_ca_pool strip_scheme
  new_forwarder cfg =
      if cfg.target == [] then err (other (text "forwarder: Target is required")) else (do
        reloader ← required (text "forwarder: ClientReloader is required") cfg.reloader
        pool ← context (text "forwarder") (load_ca_pool cfg.ca_root_file)
        conn ← context (text "forwarder: dial") (d.dial (strip_scheme cfg.target) pool reloader)
        ok (record { conn = some conn; signed = none; reloader = none }))

  -- NewSigned
  unfoldable pub new_signed : SignedConfig Reloader → Result Error (Dialled Conn Client Reloader)
  new_signed cfg =
      if cfg.base_url == [] then err (other (text "forwarder: BaseURL is required")) else (do
        reloader ← required (text "forwarder: ClientReloader is required") cfg.reloader
        client ←
            context (text "forwarder")
              (d.new_signed_client cfg.base_url cfg.ca_root_file cfg.edge_ca_file)
        ok (record { conn = none; signed = some client; reloader = some reloader }))

  -- Close
  abbrev close_conn : Option Conn → Option Error
  close_conn none = none
  close_conn (some conn) = d.close conn

  unfoldable pub close : Dialled Conn Client Reloader → Option Error
  close f = close_conn f.conn
