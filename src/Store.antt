-- ===== src/Store.antt =====
-- internal/store: the data layer, an in-memory Telemetry DB and Audit Log.
pub mod Model
pub mod Scope
pub mod Writes
pub mod Reads
pub mod FleetFile
pub mod Invariant
pub mod Isolation
pub mod Calls
pub mod Spec
