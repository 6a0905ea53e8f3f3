-- ===== src/Ingest.antt =====
-- internal/ingest: the Ingest API, which devices publish their telemetry to.
pub mod Conn
pub mod Sample
pub mod Session
pub mod Handle
pub mod Serve
pub mod Tls
