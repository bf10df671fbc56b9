-- ===== src/Store.antt =====
-- internal/store: the repository of pools, VMs, leases, events, hosts and placements.
pub mod Error
pub mod Rows
pub mod Migration
pub mod Db
pub mod Pools
pub mod Vms
pub mod Leases
pub mod Events
pub mod Hosts
pub mod Call
pub mod WellFormed
pub mod Claim
pub mod Leasing
pub mod Expiry
pub mod Cordon
pub mod Drain
pub mod RoundTrips
pub mod PoolDelete
pub mod Outcomes
pub mod Reads
pub mod Refined
pub mod Moves
pub mod Deleting
