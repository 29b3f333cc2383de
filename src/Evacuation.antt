-- ===== src/Evacuation.antt =====
-- pkg/evacuation/evacuation.go: moving LINSTOR resources off a satellite that is being removed.
pub mod Admission
pub mod Volumes
pub mod Prepare
pub mod Reattach
pub mod Relocate
pub mod Run
pub mod Quiet
pub mod Gate
pub mod Finish
pub mod Reach
pub mod Outcomes
pub mod Syncing
pub mod Overridden
pub mod Stuck
pub mod Sample
mod Tests
