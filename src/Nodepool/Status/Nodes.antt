-- ===== src/Nodepool/Status/Nodes.antt =====
-- What setStatus of pkg/cloud/services/cce/nodepool.go reports of a pool that is ready.
use cluster_api_provider_cce.Prelude.{String, ◌≡◌, refl, true, false, none, some, ◌∷◌, arith}
use cluster_api_provider_cce.Go.{State, ret, deref, wrap, catch, ◌>>=◌}
use cluster_api_provider_cce.Env.{Env}
use cluster_api_provider_cce.Call.{Call}
use cluster_api_provider_cce.Sdk.{CceClient, NodePool, NodePoolStatus}
use cluster_api_provider_cce.Api.ControlPlane.{ControlPlane}
use cluster_api_provider_cce.Api.MachinePool.{ManagedMachinePool}
use cluster_api_provider_cce.Scope.MachinePool.{patch_object}
use cluster_api_provider_cce.Nodepool.Status.{
  with_ready, with_failure, is_positive, apply_phase, set_status,
}
use cluster_api_provider_cce.Nodepool.Status.Laws.{Named}

module _ {W C : Type 0} (env : Env W C) (control_plane : ControlPlane C) (cce : CceClient W)
    (s : State W (Call C) (ManagedMachinePool C)) where
  -- The machine pool as the phase "" leaves it.
  abbrev pub settled : ManagedMachinePool C
  settled = record s.obj { status = record s.obj.status { ready = true; failure_message = none } }

  empty-phase : Named env.enums → apply_phase env.enums "" s ≡ (ret tt, record s { obj = settled })
  unfolding apply_phase with_ready with_failure ◌>>=◌
  empty-phase (a, (b, (c, (d, e)))) = rw (a, b, c, d, e) refl

  patched-obj :
      (t : State W (Call C) (ManagedMachinePool C)) (msg : String)
      → (wrap msg (patch_object env) t).1.obj ≡ t.obj
  unfolding wrap catch patch_object ◌>>=◌
  patched-obj t msg = ground arith

  patched-trace :
      (t : State W (Call C) (ManagedMachinePool C)) (msg : String)
      → (wrap msg (patch_object env) t).1.trace ≡ Call.patch_machine_pool t.obj ∷ t.trace
  unfolding wrap catch patch_object ◌>>=◌
  patched-trace t msg = ground arith

  module _ (np : NodePool) (status : NodePoolStatus) (named : Named env.enums)
      (has : np.status ≡ some status) (empty : status.phase ≡ some "") where
    -- For a node pool of the empty phase without a positive node count, where the phases of the SDK are not
    -- empty, setStatus makes the machine pool ready and leaves its replicas and its provider ids as they were, whatever they were.
    pub set_status-stale :
        is_positive status.current_node ≡ false
        → (set_status env control_plane cce np s).1.obj ≡ settled
    unfolding set_status ◌>>=◌
    set_status-stale n = rw (has, deref, empty, empty-phase named, n) (patched-obj _ _)
