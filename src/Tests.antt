-- ===== src/Tests.antt =====
-- The theorems applied to concrete data, and small runs of the definitions.
pub mod Data
pub mod Wire
pub mod Stores
pub mod Access
pub mod Releases
pub mod Devices
pub mod Api
pub mod Publishing
pub mod Startup
pub mod Concurrent
pub mod Delivery
pub mod Calls
pub mod Listing
