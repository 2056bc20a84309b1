-- ===== src/Scope.antt =====
-- pkg/cloud/scope: what the services need of one reconcile request, and how it is persisted.
-- The object that a scope points to is the state of its actions; the other objects are arguments.
pub mod ControlPlane
pub mod MachinePool
