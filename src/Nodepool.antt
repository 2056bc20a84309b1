-- ===== src/Nodepool.antt =====
-- pkg/cloud/services/cce/nodepool.go: the CCE node pool behind a machine pool.
pub mod Request
pub mod Frame
pub mod Show
pub mod Status
pub mod Delete
pub mod Reconcile
