-- ===== src/Api.antt =====
-- internal/api: the handlers of the gRPC services.
pub mod Status
pub mod Lease
pub mod Claim
pub mod Pools
pub mod PoolAdmin
pub mod HostAdmin
pub mod Events
