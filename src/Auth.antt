-- ===== src/Auth.antt =====
-- internal/auth: the collector's certificate on disk and in memory, its enrolment, and the signed and
-- sealed transport.
pub mod Reloader
pub mod KeyPair
pub mod Replay
pub mod Crypto
pub mod Sealed
pub mod SignatureBase
pub mod HttpSig
pub mod Transport
pub mod VendorKeys
pub mod SignedClient
pub mod Persister
pub mod SecretStore
pub mod Flows
pub mod FilePersister
pub mod BrainClient
