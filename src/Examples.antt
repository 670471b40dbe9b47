-- ===== src/Examples.antt =====
-- Concrete runs of the code, and data for them.
pub mod Suite
pub mod Transport
pub mod Enrolment
pub mod Envelope
pub mod Fixtures
pub mod Sorting
pub mod Redaction
pub mod Delivery
pub mod Enrichment
pub mod Startup
pub mod Serving
pub mod Sharing
pub mod Commands
