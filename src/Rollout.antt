-- ===== src/Rollout.antt =====
-- internal/rollout: the Rollout Service, which publishes signed firmware releases.
pub mod Version
pub mod Manifest
pub mod Server
pub mod Routes
pub mod History
pub mod Concurrent
pub mod Cdn
pub mod ReleaseKey
