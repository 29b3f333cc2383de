-- ===== src/Satellite.antt =====
-- internal/controller/linstorsatellite_controller.go: the reconciliation of one satellite.
pub mod Deletion
pub mod Looks
pub mod Release
pub mod Policy
pub mod Probe
pub mod Pools
pub mod Surplus
pub mod Backed
pub mod State
pub mod Requests
pub mod Steady
mod StateTests
pub mod Sample
mod Tests
mod PoolTests
