-- ===== src/Controller/Maps.antt =====
-- The map functions of the three controllers' watches, in
-- internal/controller/ccemanagedmachinepool_controller.go, ccemanagedcontrolplane_controller.go and
-- ccemanagedcluster_controller.go.
pub mod Laws
use cluster_api_provider_cce.Prelude.{String, ◌||◌, Option, none, some, List, [], ◌∷◌}
use cluster_api_provider_cce.Errors.{Result, ok, err}
use cluster_api_provider_cce.Go.{if◌then◌else◌, M, pure, crash, call, attempt, ◌>>=◌, ◌>>◌}
use cluster_api_provider_cce.Env.{Env}
use cluster_api_provider_cce.Call.{Call}
use cluster_api_provider_cce.Api.Meta.{ObjectReference, ObjectMeta, NamespacedName, Cluster}
use cluster_api_provider_cce.Api.ControlPlane.{ControlPlane}
use cluster_api_provider_cce.Logger.{Logr, Logger, with_values}
use cluster_api_provider_cce.Controller.Requests.{
  Watched, GroupKind, get_owner_cluster_key, all_requests, ref_requests,
}

module _ {W C O : Type 0} (env : Env W C) where
  unfoldable pub pools_of_key :
      GroupKind → Result (Option NamespacedName) → M W (Call C) O (List NamespacedName)
  pools_of_key gk (err e) = pure []
  pools_of_key gk (ok none) = pure []
  pools_of_key gk (ok (some key)) = do
    pools ←
        attempt
          (call (Call.read "MachinePoolList") (env.kube.list_machine_pools key.namespace key.name))
    elim pools [ err e ↦ pure [] | ok items ↦ pure (all_requests gk items) ]

  -- managedControlPlaneToManagedMachinePoolMapFunc: another object is a nil pointer.
  unfoldable pub control_plane_to_machine_pools :
      GroupKind → Watched C → M W (Call C) O (List NamespacedName)
  control_plane_to_machine_pools gk (Watched.control_plane cp) =
      if cp.meta.deleted
      then pure []
      else pools_of_key gk (get_owner_cluster_key env.kube.parse_group_version cp.meta)
  control_plane_to_machine_pools gk _ = crash

  -- util.GetOwnerCluster, whose errors the map functions log and drop
  unfoldable pub owner_ref_requests :
      String
      → (Cluster → Option ObjectReference)
      → ObjectMeta
      → M W (Call C) O (List NamespacedName)
  owner_ref_requests kind ref meta = do
    found ← attempt (call (Call.read "Cluster") (env.kube.get_owner_cluster meta))
    elim found [
      | err e ↦ pure []
      | ok cluster? ↦ elim cluster? [
        | none ↦ pure []
        | some cluster ↦ pure (ref_requests kind (ref cluster))
      ]
    ]

  -- managedClusterToManagedControlPlane
  unfoldable pub managed_cluster_to_control_plane : Watched C → M W (Call C) O (List NamespacedName)
  managed_cluster_to_control_plane (Watched.managed_cluster c) =
      if c.meta.deleted
      then pure []
      else owner_ref_requests "CCEManagedControlPlane" (λ cluster. cluster.control_plane_ref) c.meta
  managed_cluster_to_control_plane _ = pure []

module _ {W C L : Type 0} (env : Env W C) (logr : Logr L) where
  -- What the mapper adds to the logger's values for a control plane.
  unfoldable pub mapper_values : ControlPlane C → List (String × String)
  mapper_values cp =
      ("objectMapper", "ccemcpTomc")
      ∷ (("ccemanagedcontrolplane", logr.k_ref cp.meta.namespace cp.meta.name) ∷ [])

  -- managedControlPlaneToManagedCluster: the object in memory is the logger that the controller's
  -- setup hands to it, one for all events.
  unfoldable pub control_plane_to_managed_cluster :
      Watched C → M W (Call C) (Logger L) (List NamespacedName)
  control_plane_to_managed_cluster (Watched.control_plane cp) = do
    with_values logr (mapper_values cp)
    if cp.meta.deleted || env.formats.endpoint_is_zero cp.spec.control_plane_endpoint
        then pure []
        else owner_ref_requests env "CCEManagedCluster" (λ cluster. cluster.infrastructure_ref)
            cp.meta
  control_plane_to_managed_cluster _ = pure []
