-- ===== src/LinstorHelper.antt =====
-- pkg/linstorhelper: what the operator asks of the LINSTOR Controller.
pub mod Properties
pub mod Client
pub mod Nodes
pub mod Interfaces
pub mod Stale
mod Tests
