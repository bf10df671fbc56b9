-- ===== src/Examples.antt =====
-- Test data, and the theorems of this library at concrete inputs.
pub mod Data
pub mod Stores
pub mod Hosts
pub mod Sizing
pub mod Leases
pub mod Claims
pub mod Managers
pub mod Clients
pub mod Specs
pub mod Migrations
