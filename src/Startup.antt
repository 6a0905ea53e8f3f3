-- ===== src/Startup.antt =====
-- cmd and internal/httpserve: how the three services start.
pub mod Flags
pub mod Listener
pub mod Rollout
pub mod Fleet
pub mod Ingest
pub mod Dashboard
pub mod Process
