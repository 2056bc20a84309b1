-- ===== src/Tests.antt =====
-- Concrete inputs for the theorems.
pub mod World
pub mod Cloud
pub mod Objects
pub mod Runs
pub mod Laws
pub mod Reconcilers
pub mod Orders
pub mod Progress
pub mod Whole
pub mod Steady
pub mod Copies
pub mod Failures
pub mod Pools
pub mod Kubeconfigs
pub mod Deadlock
