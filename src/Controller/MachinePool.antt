-- ===== src/Controller/MachinePool.antt =====
-- internal/controller/ccemanagedmachinepool_controller.go: the reconciler of machine pools.
pub mod Closing
pub mod Deletion
pub mod Finalizer
pub mod Lifecycle
pub mod Progress
pub mod Whole
use cluster_api_provider_cce.Prelude.{String, true, Option, none, some, List, [], ◌∷◌}
use cluster_api_provider_cce.Errors.{Error, Result, ok, err}
use cluster_api_provider_cce.Go.{
  if◌then◌else◌, M, pure, raise, get_obj, modify, deref, call, wrap, when, attempt, with_object,
  defer_with, ◌>>=◌, ◌>>◌,
}
use cluster_api_provider_cce.Env.{Env, Severity}
use cluster_api_provider_cce.Call.{Call, PoolM}
use cluster_api_provider_cce.Api.Meta.{
  ObjectMeta, NamespacedName, OwnerReference, Cluster, MachinePool,
}
use cluster_api_provider_cce.Api.ControlPlane.{ControlPlane}
use cluster_api_provider_cce.Api.MachinePool.{
  ManagedMachinePool, managed_machine_pool_finalizer, nodepool_ready, waiting_for_control_plane,
}
use cluster_api_provider_cce.Scope.MachinePool.{
  new_machine_pool_scope, patch_object, close, mark_false, set_conditions,
}
use cluster_api_provider_cce.Service.{new_nodepool_service}
use cluster_api_provider_cce.Nodepool.Delete.{reconcile_pool_delete}
use cluster_api_provider_cce.Nodepool.Reconcile.{reconcile_pool}
use cluster_api_provider_cce.Controller.Requests.{CtrlResult, done, requeue, find_owner}

module _ {C : Type 0} where
  unfoldable pub with_finalizers : List String → ManagedMachinePool C → ManagedMachinePool C
  with_finalizers l pool = record pool { meta = record pool.meta { finalizers = l } }

module _ {W C : Type 0} (env : Env W C) where
  unfoldable pub remove_finalizer : PoolM W C (Unit {0})
  remove_finalizer = modify (λ pool.
      with_finalizers (env.finalizers.remove managed_machine_pool_finalizer pool.meta.finalizers)
        pool)

  -- AddFinalizer, and the patch where it was not there yet.
  unfoldable pub ensure_finalizer : PoolM W C (Unit {0})
  ensure_finalizer = do
    pool ← get_obj
    let added = env.finalizers.add managed_machine_pool_finalizer pool.meta.finalizers
    modify (with_finalizers added.0)
    when added.1 (patch_object env)

  unfoldable pub reconcile_delete : ControlPlane C → PoolM W C CtrlResult
  reconcile_delete control_plane = do
    cce ←
        wrap "failed to init cce service for CCEManagedMachinePool"
          (new_nodepool_service env control_plane)
    wrap "failed to reconcile machine pool deletion for CCEManagedMachinePool"
        (reconcile_pool_delete env control_plane cce)
    remove_finalizer
    pure done

  unfoldable pub reconcile_normal : ControlPlane C → PoolM W C CtrlResult
  reconcile_normal control_plane = do
    ensure_finalizer
    cce ←
        wrap "failed to init cce service for CCEManagedMachinePool"
          (new_nodepool_service env control_plane)
    wrap "failed to reconcile machine pool for CCEManagedMachinePool"
        (reconcile_pool env control_plane cce)
    pure done

  -- What `if err := Close(); err != nil && reterr == nil` assigns.
  abbrev pub close_error : Option Error → Result (Unit {0}) → Option Error
  close_error (some e) closed = none
  close_error none (ok _) = none
  close_error none (err e) = some e

  -- The deferred function of Reconcile.
  unfoldable pub close_scope : Option Error → PoolM W C (Option Error)
  close_scope reterr = do
    set_conditions (env.conditions.set_summary (nodepool_ready ∷ []))
    closed ← attempt (close env)
    pure (close_error reterr closed)

  unfoldable pub run_scoped : ControlPlane C → MachinePool → PoolM W C CtrlResult
  run_scoped control_plane machine_pool = do
    wrap "failed to create scope"
        (new_machine_pool_scope env (some control_plane) (some machine_pool) true)
    pool ← get_obj
    defer_with
        (if pool.meta.deleted
          then reconcile_delete control_plane
          else reconcile_normal control_plane)
        close_scope

  -- A control plane that is not ready yet: the condition is set on the object in memory.
  unfoldable pub wait_for_control_plane : PoolM W C CtrlResult
  wait_for_control_plane = do
    mark_false env nodepool_ready waiting_for_control_plane Severity.info ""
    pure done

  unfoldable pub with_control_plane : MachinePool → Result (ControlPlane C) → PoolM W C CtrlResult
  with_control_plane machine_pool (err e) = pure done
  with_control_plane machine_pool (ok control_plane) =
      if control_plane.status.ready
      then run_scoped control_plane machine_pool
      else wait_for_control_plane

  unfoldable pub with_cluster : MachinePool → Result Cluster → PoolM W C CtrlResult
  with_cluster machine_pool (err e) = pure done
  with_cluster machine_pool (ok cluster) = do
    pool ← get_obj
    if env.kube.is_paused cluster pool.meta then pure done else do
      ref ← deref cluster.control_plane_ref
      let key : NamespacedName = record { namespace = pool.meta.namespace; name = ref.name }
      found ← attempt (call (Call.read "CCEManagedControlPlane") (env.kube.get_control_plane key))
      with_control_plane machine_pool found

  -- getOwnerMachinePool and getMachinePoolByName
  unfoldable pub fetch_owner :
      String → Result (Option OwnerReference) → PoolM W C (Option MachinePool)
  fetch_owner namespace (err e) = raise e
  fetch_owner namespace (ok none) = pure none
  fetch_owner namespace (ok (some ref)) = do
    let key : NamespacedName = record { namespace = namespace; name = ref.name }
    machine_pool ← call (Call.read "MachinePool") (env.kube.get_machine_pool key)
    pure (some machine_pool)

  unfoldable pub get_owner_machine_pool : ObjectMeta → PoolM W C (Option MachinePool)
  get_owner_machine_pool meta =
      fetch_owner meta.namespace
        (find_owner env.kube.parse_group_version "MachinePool" meta.owner_references)

  unfoldable pub with_owner : Option MachinePool → PoolM W C CtrlResult
  with_owner none = pure done
  with_owner (some machine_pool) = do
    cluster ←
        attempt (call (Call.read "Cluster") (env.kube.get_cluster_from_metadata machine_pool.meta))
    with_cluster machine_pool cluster

  unfoldable pub reconcile_object : PoolM W C CtrlResult
  reconcile_object = do pool ← get_obj; owner ← get_owner_machine_pool pool.meta; with_owner owner

  -- Reconcile: no object is held before the first read, nor after the last write.
  unfoldable pub reconcile : NamespacedName → M W (Call C) (Unit {0}) CtrlResult
  reconcile request = do
    found ←
        attempt
          (call (Call.read "CCEManagedMachinePool") (env.kube.get_managed_machine_pool request))
    elim found [
      | err e ↦ if env.kube.is_not_found e then pure done else pure requeue
      | ok pool ↦ with_object pool reconcile_object
    ]
