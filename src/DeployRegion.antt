-- ===== src/DeployRegion.antt =====
-- Deploy regions: what the nodes of a region have, and whether it has failed
-- (pkg/controllers/deployregion).
pub mod Resource
pub mod Totals
pub mod Division
pub mod Cache
pub mod Requests
pub mod Tracking
pub mod Pods
pub mod Status
pub mod Failure
pub mod Events
pub mod Sync
pub mod Links
pub mod Started
pub mod Flags
pub mod Current
