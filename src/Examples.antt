-- ===== src/Examples.antt =====
-- Examples.
mod Affinity
mod Reschedules
mod Store
mod Witnesses
mod Rollout
mod Regions
mod Pods
mod Driver
mod InPlace
mod Revisions
mod Rounds
