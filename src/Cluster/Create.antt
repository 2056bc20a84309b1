-- ===== src/Cluster/Create.antt =====
-- createCluster and waitForClusterActive of pkg/cloud/services/cce/cluster.go.
pub mod Laws
use cluster_api_provider_cce.Prelude.{◌<>◌, Bool, ◌==◌}
use cluster_api_provider_cce.Go.{pure, get_obj, deref, call, wrap, ◌>>=◌, ◌>>◌}
use cluster_api_provider_cce.Env.{Env}
use cluster_api_provider_cce.Call.{Call, CpM}
use cluster_api_provider_cce.Sdk.{ShowClusterResponse, CreateClusterResponse}
use cluster_api_provider_cce.Api.Meta.{Cluster}
use cluster_api_provider_cce.Api.ControlPlane.{control_plane_creating}
use cluster_api_provider_cce.Scope.ControlPlane.{
  mark_true, set_infra_cluster_id, scope_infra_cluster_id,
}
use cluster_api_provider_cce.Service.{Service}
use cluster_api_provider_cce.Service.Wait.{wait_until, poll_interval, max_polls}
use cluster_api_provider_cce.Cluster.Request.{cluster_request}
use cluster_api_provider_cce.Cluster.Show.{show_cce_cluster}
use cluster_api_provider_cce.Cluster.Status.{set_status}

module _ {W C : Type 0} (env : Env W C) (svc : Service W) where
  unfoldable pub create_cluster : Cluster → CpM W C CreateClusterResponse
  create_cluster cluster = do
    network ← deref cluster.cluster_network
    cp ← get_obj
    let request = cluster_request env network cp
    response ←
        wrap "failed to create CCE cluster"
          (call (Call.create_cluster request) (svc.cce.create_cluster request))
    metadata ← deref response.metadata
    uid ← deref metadata
    set_infra_cluster_id uid
    mark_true env control_plane_creating
    pure response

  -- The condition that waitForClusterActive polls. A cluster that is gone is a nil pointer here.
  unfoldable pub poll_active : CpM W C Bool
  poll_active = do
    id ← scope_infra_cluster_id
    found ← show_cce_cluster svc id
    cluster ← deref found
    status ← deref cluster.status
    phase ← deref status.phase
    pure (phase == "Available")

  unfoldable pub wait_for_cluster_active : CpM W C ShowClusterResponse
  wait_for_cluster_active = do
    cp ← get_obj
    wrap ("failed to wait for cce control plane " <> cp.meta.name)
        (wait_until poll_active poll_interval max_polls)
    id ← scope_infra_cluster_id
    found ← wrap "failed to show cce cluster" (show_cce_cluster svc id)
    cluster ← deref found
    wrap "failed to set status" (set_status env cluster.status)
    pure cluster
