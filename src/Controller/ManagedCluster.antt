-- ===== src/Controller/ManagedCluster.antt =====
-- internal/controller/ccemanagedcluster_controller.go: the reconciler of managed clusters.
pub mod Laws
use cluster_api_provider_cce.Prelude.{true, Option, none, some}
use cluster_api_provider_cce.Errors.{ok, err}
use cluster_api_provider_cce.Go.{
  if◌then◌else◌, M, pure, raise, get_obj, modify, deref, call, wrap, attempt, with_object, ◌>>=◌,
  ◌>>◌,
}
use cluster_api_provider_cce.Env.{Env}
use cluster_api_provider_cce.Call.{Call, ClusterM}
use cluster_api_provider_cce.Api.Meta.{NamespacedName, Cluster}
use cluster_api_provider_cce.Api.ControlPlane.{ControlPlane}
use cluster_api_provider_cce.Api.ManagedCluster.{ManagedCluster}
use cluster_api_provider_cce.Controller.Requests.{CtrlResult, done}

-- "Set the values from the managed control plane"
unfoldable pub with_control_plane : {C : Type 0} → ControlPlane C → ManagedCluster → ManagedCluster
with_control_plane control_plane c = record c {
  ready = true;
  control_plane_endpoint = control_plane.spec.control_plane_endpoint;
}

module _ {W C : Type 0} (env : Env W C) where
  unfoldable pub update_from : ControlPlane C → ClusterM W C CtrlResult
  update_from control_plane = do
    c ← get_obj
    wrap "failed to init patch helper"
        (call (Call.read "patch helper") (env.kube.new_managed_cluster_helper c))
    modify (with_control_plane control_plane)
    c' ← get_obj
    wrap "failed to patch CCEManagedCluster"
        (call (Call.patch_managed_cluster c') (env.kube.patch_managed_cluster c'))
    pure done

  unfoldable pub with_owner : Option Cluster → ClusterM W C CtrlResult
  with_owner none = pure done
  with_owner (some cluster) = do
    c ← get_obj
    if env.kube.is_paused cluster c.meta then pure done else do
      ref ← deref cluster.control_plane_ref
      let key : NamespacedName = record { namespace = ref.namespace; name = ref.name }
      control_plane ←
          wrap "failed to get control plane ref"
            (call (Call.read "CCEManagedControlPlane") (env.kube.get_control_plane key))
      update_from control_plane

  unfoldable pub reconcile_object : ClusterM W C CtrlResult
  reconcile_object = do
    c ← get_obj
    owner ← call (Call.read "Cluster") (env.kube.get_owner_cluster c.meta)
    with_owner owner

  unfoldable pub reconcile : NamespacedName → M W (Call C) (Unit {0}) CtrlResult
  reconcile request = do
    found ← attempt (call (Call.read "CCEManagedCluster") (env.kube.get_managed_cluster request))
    elim found [
      | err e ↦ if env.kube.is_not_found e then pure done else raise e
      | ok c ↦ with_object c reconcile_object
    ]
