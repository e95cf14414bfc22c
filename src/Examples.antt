-- ===== src/Examples.antt =====
-- Concrete inputs at which the theorems are applied.
pub mod Data
pub mod Machines
pub mod Policies
pub mod Records
pub mod Bindings
pub mod Chains
pub mod Reports
pub mod Walks
pub mod Purges
pub mod PurgeStores
