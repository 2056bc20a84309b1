-- ===== src/Cluster/Reconcile.antt =====
-- ReconcileControlPlane and reconcileCluster of pkg/cloud/services/cce/cluster.go.
pub mod Condition
pub mod Endpoint
pub mod Frame
pub mod Available
pub mod Nil
pub mod Steady
use cluster_api_provider_cce.Prelude.{
  ◌%◌, ◌^◌, String, Bool, true, false, ◌||◌, Option, none, some, List, [], ◌∷◌, ◌==◌, get_or,
}
use cluster_api_provider_cce.Errors.{Error}
use cluster_api_provider_cce.Go.{
  if◌then◌else◌, pure, raise, get_obj, modify, deref, catch, wrap, when, ◌>>=◌, ◌>>◌,
}
use cluster_api_provider_cce.Env.{Env, Severity}
use cluster_api_provider_cce.Call.{CpM}
use cluster_api_provider_cce.Sdk.{ClusterStatus, ClusterEndpoint, ShowClusterResponse}
use cluster_api_provider_cce.Api.Meta.{Cluster, ApiEndpoint}
use cluster_api_provider_cce.Api.ControlPlane.{
  ControlPlane, control_plane_ready, control_plane_reconciliation_failed,
}
use cluster_api_provider_cce.Scope.ControlPlane.{mark_true, mark_false, scope_infra_cluster_id}
use cluster_api_provider_cce.Service.{Service}
use cluster_api_provider_cce.Service.Address.{parse_url}
use cluster_api_provider_cce.Eip.{reconcile_eip}
use cluster_api_provider_cce.Kubeconfig.{lift, reconcile_kubeconfig}
use cluster_api_provider_cce.Cluster.Show.{show_cce_cluster}
use cluster_api_provider_cce.Cluster.Status.{set_status}
use cluster_api_provider_cce.Cluster.Create.{create_cluster, wait_for_cluster_active}

module _ {C : Type 0} where
  unfoldable pub with_endpoint : ApiEndpoint → ControlPlane C → ControlPlane C
  with_endpoint endpoint cp = record cp {
    spec = record cp.spec { control_plane_endpoint = endpoint };
  }

module _ {W C : Type 0} (env : Env W C) where
  -- `int32(port)` keeps the low 32 bits.
  unfoldable pub set_endpoint : ClusterEndpoint → CpM W C (Unit {0})
  set_endpoint ep = do
    url ← deref ep.url
    address ← lift (parse_url env.formats.url_parse url)
    modify (with_endpoint (record { host = address.0; port = address.1 % 2 ^ 32 }))

  -- One `for` loop: each endpoint of the kind overwrites the one before it.
  unfoldable pub set_endpoints : String → List ClusterEndpoint → CpM W C (Unit {0})
  set_endpoints kind [] = pure tt
  set_endpoints kind (ep ∷ eps) = do
    endpoint_type ← deref ep.endpoint_type
    when (endpoint_type == kind) (set_endpoint ep)
    set_endpoints kind eps

  -- The internal addresses first, so that an external one wins.
  unfoldable pub choose_endpoint : Option (List ClusterEndpoint) → CpM W C (Unit {0})
  choose_endpoint none = pure tt
  choose_endpoint (some eps) = do set_endpoints "Internal" eps; set_endpoints "External" eps

module _ {W C : Type 0} (env : Env W C) (cluster : Cluster) (svc : Service W) where
  -- The CCE cluster of the label, if it is there.
  unfoldable pub find_cluster : CpM W C (Option ShowClusterResponse)
  find_cluster = do
    id ← scope_infra_cluster_id
    if id == "" then pure none else wrap "failed to show cce clusters" (show_cce_cluster svc id)

  unfoldable pub status_or_create : Option ShowClusterResponse → CpM W C (Option ClusterStatus)
  status_or_create none = do
    created ← wrap "failed to create cluster" (create_cluster env svc cluster)
    pure created.status
  status_or_create (some response) = pure response.status

  unfoldable pub wait_when :
      Bool → Option ShowClusterResponse → CpM W C (Option ShowClusterResponse)
  wait_when false found = pure found
  wait_when true found = do
    active ← wrap "failed to wait for cluster to be active" (wait_for_cluster_active env svc)
    pure (some active)

  -- The `switch` after setStatus.
  unfoldable pub wait_if_busy :
      Option ShowClusterResponse → Option ClusterStatus → CpM W C (Option ShowClusterResponse)
  wait_if_busy found status? = do
    status ← deref status?
    phase ← deref status.phase
    wait_when (phase == "Creating" || phase == "Upgrading") found

  -- What the debug line before the endpoints reads: `*cluster.Status.Endpoints`.
  unfoldable pub read_endpoints : Option ShowClusterResponse → CpM W C (List ClusterEndpoint)
  read_endpoints found = do
    response ← deref found
    status ← deref response.status
    deref status.endpoints

  -- `BoolDeref(Spec.EndpointAccess.Public, true)`
  unfoldable pub reconcile_public_access : CpM W C (Unit {0})
  reconcile_public_access = do
    cp ← get_obj
    access ← deref cp.spec.endpoint_access
    when (get_or true access.is_public) (wrap "failed reconciling EIP" (reconcile_eip env svc))

  -- The end of reconcileCluster, for a control plane that is ready.
  unfoldable pub reconcile_ready : Option ShowClusterResponse → CpM W C (Unit {0})
  reconcile_ready found = do
    read_endpoints found
    reconcile_public_access
    id ← scope_infra_cluster_id
    shown ← wrap "failed to show cce clusters" (show_cce_cluster svc id)
    response ← deref shown
    status ← deref response.status
    choose_endpoint env status.endpoints
    wrap "failed reconciling kubeconfig" (reconcile_kubeconfig env cluster svc)

  unfoldable pub reconcile_cluster : CpM W C (Unit {0})
  reconcile_cluster = do
    found ← find_cluster
    status ← status_or_create found
    wrap "failed to set status" (set_status env status)
    active ← wait_if_busy found status
    cp ← get_obj
    when cp.status.ready (reconcile_ready active)

  unfoldable pub control_plane_failed : Error → CpM W C (Unit {0})
  control_plane_failed e = do
    mark_false env control_plane_ready control_plane_reconciliation_failed Severity.error
        (env.formats.error_text e)
    raise e

  unfoldable pub reconcile_control_plane : CpM W C (Unit {0})
  reconcile_control_plane = do
    catch reconcile_cluster control_plane_failed
    mark_true env control_plane_ready
