-- ===== src/Cluster.antt =====
-- pkg/cloud/services/cce/cluster.go: the CCE cluster behind a control plane.
pub mod Request
pub mod Show
pub mod Status
pub mod Create
pub mod Delete
pub mod Reconcile
pub mod Frame
pub mod Ranks
pub mod Order
