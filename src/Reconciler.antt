-- ===== src/Reconciler.antt =====
-- internal/reconciler: the control loop that keeps a pool at its size.
pub mod Strategy
pub mod HostPick
pub mod Count
pub mod Recovery
pub mod Deletion
pub mod Policy
pub mod Provision
pub mod Sweeper
pub mod Loop
