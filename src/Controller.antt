-- ===== src/Controller.antt =====
-- internal/controller: the three reconcilers, and the functions that map watched objects to requests.
pub mod Requests
pub mod Maps
pub mod MachinePool
pub mod ControlPlane
pub mod ManagedCluster
pub mod Deadlock
pub mod Setup
