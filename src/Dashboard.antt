-- ===== src/Dashboard.antt =====
-- internal/dashboard: the Dashboard API, which operators and admins read the fleet through.
pub mod Csv
pub mod Handlers
pub mod Isolated
pub mod Routes
pub mod Export
pub mod EndToEnd
pub mod Delivered
