-- ===== src/Api.antt =====
-- The API types of api/v1beta1, and the fields of the Kubernetes and Cluster API types that the
-- code reads. `C` is the conditions list of cluster-api, whose package is a parameter (Env).
pub mod Meta
pub mod ControlPlane
pub mod MachinePool
pub mod ManagedCluster
pub mod Memory
pub mod DeepCopy
pub mod Webhook
