-- ===== src/Nodepool/Show.antt =====
-- showNodepool and createNodepool of pkg/cloud/services/cce/nodepool.go.
use cluster_api_provider_cce.Prelude.{Option, none, some}
use cluster_api_provider_cce.Errors.{Error, wrapped}
use cluster_api_provider_cce.Go.{
  if◌then◌else◌, pure, raise, get_obj, deref, call, catch, wrap, ◌>>=◌, ◌>>◌,
}
use cluster_api_provider_cce.Env.{Env}
use cluster_api_provider_cce.Call.{Call, PoolM}
use cluster_api_provider_cce.Sdk.{CceClient, NodePool, NodePoolResponse}
use cluster_api_provider_cce.Api.ControlPlane.{ControlPlane, infra_cluster_id}
use cluster_api_provider_cce.Scope.MachinePool.{
  scope_infra_machine_pool_id, set_infra_machine_pool_id,
}
use cluster_api_provider_cce.Cluster.Show.{is_404}
use cluster_api_provider_cce.Nodepool.Request.{nodepool_request}

module _ {W C : Type 0} where
  -- A response as a node pool: its kind and its version are read through pointers.
  unfoldable pub of_response : NodePoolResponse → PoolM W C NodePool
  of_response response = do
    kind ← deref response.kind
    api_version ← deref response.api_version
    pure (record {
      kind = kind;
      api_version = api_version;
      metadata_uid = response.metadata_uid;
      status = response.status;
    })

  unfoldable pub missing_nodepool : Error → PoolM W C (Option NodePool)
  missing_nodepool e = if is_404 e then pure none else raise (wrapped "failed to show nodepool" e)

module _ {W C : Type 0} (control_plane : ControlPlane C) (cce : CceClient W) where
  unfoldable pub show_nodepool : PoolM W C (Option NodePool)
  show_nodepool = do
    id ← scope_infra_machine_pool_id
    let cluster_id = infra_cluster_id control_plane
    catch
        (do
          response ← call (Call.show_node_pool cluster_id id) (cce.show_node_pool cluster_id id)
          np ← of_response response
          pure (some np))
        missing_nodepool

module _ {W C : Type 0} (env : Env W C) (control_plane : ControlPlane C) (cce : CceClient W) where
  unfoldable pub create_nodepool : PoolM W C NodePool
  create_nodepool = do
    pool ← get_obj
    root_volume ← deref pool.spec.root_volume
    subnet_id ← deref pool.spec.subnet
    let request = nodepool_request env (infra_cluster_id control_plane) pool root_volume subnet_id
    response ←
        wrap "failed to create CCE nodepool"
          (call (Call.create_node_pool request) (cce.create_node_pool request))
    metadata ← deref response.metadata_uid
    uid ← deref metadata
    set_infra_machine_pool_id uid
    of_response response
