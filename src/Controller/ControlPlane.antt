-- ===== src/Controller/ControlPlane.antt =====
-- internal/controller/ccemanagedcontrolplane_controller.go: the reconciler of control planes.
pub mod Closing
pub mod Finalizer
pub mod Order
pub mod Progress
pub mod Whole
pub mod Lifecycle
pub mod Deletion
use cluster_api_provider_cce.Prelude.{
  ℕ, String, true, false, ◌||◌, Option, none, some, List, [], ◌==◌, ltb, length,
}
use cluster_api_provider_cce.Errors.{Error, Result, ok, err}
use cluster_api_provider_cce.Go.{
  if◌then◌else◌, M, pure, get_obj, modify, deref, call, wrap, when, attempt, with_object,
  defer_with, ◌>>=◌, ◌>>◌,
}
use cluster_api_provider_cce.Env.{Env}
use cluster_api_provider_cce.Call.{Call, CpM}
use cluster_api_provider_cce.Api.Meta.{NamespacedName, Cluster}
use cluster_api_provider_cce.Api.ControlPlane.{ControlPlane, managed_control_plane_finalizer}
use cluster_api_provider_cce.Scope.ControlPlane.{new_control_plane_scope, patch_object, close}
use cluster_api_provider_cce.Service.{new_service}
use cluster_api_provider_cce.Network.{reconcile_network, delete_network}
use cluster_api_provider_cce.Cluster.Delete.{delete_control_plane}
use cluster_api_provider_cce.Cluster.Reconcile.{reconcile_control_plane}
use cluster_api_provider_cce.Controller.Requests.{CtrlResult, done, requeue}

abbrev pub delete_requeue_after : ℕ
delete_requeue_after = 20

abbrev pub control_plane_kind : String
control_plane_kind = "CCEManagedControlPlane"

module _ {C : Type 0} where
  unfoldable pub with_finalizers : List String → ControlPlane C → ControlPlane C
  with_finalizers l cp = record cp { meta = record cp.meta { finalizers = l } }

module _ {W C : Type 0} (env : Env W C) where
  unfoldable pub remove_finalizer : CpM W C (Unit {0})
  remove_finalizer = modify (λ cp.
      with_finalizers (env.finalizers.remove managed_control_plane_finalizer cp.meta.finalizers) cp)

  -- AddFinalizer, and the patch where it was not there yet.
  unfoldable pub ensure_finalizer : CpM W C (Unit {0})
  ensure_finalizer = do
    cp ← get_obj
    let added = env.finalizers.add managed_control_plane_finalizer cp.meta.finalizers
    modify (with_finalizers added.0)
    when added.1 (patch_object env)

  -- The machine pools that the control plane's cluster still has.
  unfoldable pub dependency_count : Cluster → CpM W C ℕ
  dependency_count cluster = do
    pools ← wrap "failed to list managed machine pools for cluster" (
        call (Call.read "CCEManagedMachinePoolList")
          (env.kube.list_managed_machine_pools cluster.meta.namespace cluster.meta.name))
    pure (length pools)

  -- reconcileDelete, once nothing depends on the control plane.
  unfoldable pub delete_external : Cluster → CpM W C CtrlResult
  delete_external cluster = do
    svc ← wrap "error deleting CCE cluster for CCE control plane" (new_service env [])
    delete_control_plane env cluster svc
    delete_network env cluster svc
    remove_finalizer
    pure done

  unfoldable pub reconcile_delete : Cluster → CpM W C CtrlResult
  reconcile_delete cluster = do
    dependencies ← dependency_count cluster
    if ltb 0 dependencies
        then pure (record { requeue = false; requeue_after = delete_requeue_after })
        else delete_external cluster

  -- reconcileNormal, once the infrastructure need not be waited for.
  unfoldable pub reconcile_external : Cluster → CpM W C CtrlResult
  reconcile_external cluster = do
    ensure_finalizer
    svc ← wrap "failed to init cce service for CCEManagedControlPlane" (new_service env [])
    wrap "failed to reconcile network for CCEManagedControlPlane"
        (reconcile_network env cluster svc)
    wrap "failed to reconcile control plane for CCEManagedControlPlane"
        (reconcile_control_plane env cluster svc)
    pure done

  unfoldable pub reconcile_normal : ℕ → Cluster → CpM W C CtrlResult
  reconcile_normal wait_infra_period cluster = do
    ref ← deref cluster.infrastructure_ref
    if ref.kind == control_plane_kind || cluster.infrastructure_ready
        then reconcile_external cluster
        else pure (record { requeue = false; requeue_after = wait_infra_period })

  abbrev pub close_error : Option Error → Result (Unit {0}) → Option Error
  close_error (some e) closed = none
  close_error none (ok _) = none
  close_error none (err e) = some e

  -- The deferred function of Reconcile.
  unfoldable pub close_scope : Option Error → CpM W C (Option Error)
  close_scope reterr = do closed ← attempt (close env); pure (close_error reterr closed)

  unfoldable pub run_scoped : ℕ → Cluster → CpM W C CtrlResult
  run_scoped wait_infra_period cluster = do
    wrap "failed to create scope" (new_control_plane_scope env (some cluster) true)
    cp ← get_obj
    defer_with
        (if cp.meta.deleted
          then reconcile_delete cluster
          else reconcile_normal wait_infra_period cluster)
        close_scope

  unfoldable pub with_owner : ℕ → Option Cluster → CpM W C CtrlResult
  with_owner wait_infra_period none = pure done
  with_owner wait_infra_period (some cluster) = do
    cp ← get_obj
    if env.kube.is_paused cluster cp.meta then pure done else run_scoped wait_infra_period cluster

  unfoldable pub reconcile_object : ℕ → CpM W C CtrlResult
  reconcile_object wait_infra_period = do
    cp ← get_obj
    owner ← call (Call.read "Cluster") (env.kube.get_owner_cluster cp.meta)
    with_owner wait_infra_period owner

  -- Reconcile: no object is held before the first read, nor after the last write.
  unfoldable pub reconcile : ℕ → NamespacedName → M W (Call C) (Unit {0}) CtrlResult
  reconcile wait_infra_period request = do
    found ← attempt (call (Call.read "CCEManagedControlPlane") (env.kube.get_control_plane request))
    elim found [
      | err e ↦ if env.kube.is_not_found e then pure done else pure requeue
      | ok cp ↦ with_object cp (reconcile_object wait_infra_period)
    ]
