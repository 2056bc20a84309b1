-- ===== src/Nodepool/Delete.antt =====
-- ReconcilePoolDelete of pkg/cloud/services/cce/nodepool.go, and what it calls.
pub mod Safety
pub mod Progress
pub mod Report
use cluster_api_provider_cce.Prelude.{
  String, ◌<>◌, Bool, true, false, not, Option, none, some, ◌==◌,
}
use cluster_api_provider_cce.Errors.{Error, wrapped}
use cluster_api_provider_cce.Go.{
  if◌then◌else◌, pure, raise, get_obj, deref, call, catch, wrap, defer_with, ◌>>=◌, ◌>>◌,
}
use cluster_api_provider_cce.Env.{Env}
use cluster_api_provider_cce.Call.{Call, PoolM}
use cluster_api_provider_cce.Sdk.{CceClient, NodePool}
use cluster_api_provider_cce.Api.ControlPlane.{ControlPlane, infra_cluster_id}
use cluster_api_provider_cce.Scope.MachinePool.{scope_infra_machine_pool_id, nodepool_ready_false}
use cluster_api_provider_cce.Service.Wait.{wait_until, poll_interval, max_polls}
use cluster_api_provider_cce.Cluster.Show.{is_404}
use cluster_api_provider_cce.Nodepool.Show.{show_nodepool}

-- clusterv1.DeletingReason and DeletedReason
abbrev pub deleting_reason : String
deleting_reason = "Deleting"

abbrev pub deleted_reason : String
deleted_reason = "Deleted"

module _ {W C : Type 0} (env : Env W C) (control_plane : ControlPlane C) (cce : CceClient W) where
  -- Deleted: not there any more, or in any phase but the one of deletion.
  unfoldable pub deletion_over : Option NodePool → PoolM W C Bool
  deletion_over none = pure true
  deletion_over (some np) = do
    status ← deref np.status
    phase ← deref status.phase
    pure (not (phase == env.enums.deleting))

  unfoldable pub poll_deleted : PoolM W C Bool
  poll_deleted = do found ← show_nodepool control_plane cce; deletion_over found

  unfoldable pub wait_for_nodepool_deleted : PoolM W C (Unit {0})
  wait_for_nodepool_deleted = wait_until poll_deleted poll_interval max_polls

  -- DeleteNodePool answers 404: there is nothing to wait for.
  unfoldable pub accept_deletion : PoolM W C Bool → PoolM W C Bool
  accept_deletion request =
      catch request
        (λ e. if is_404 e then pure false else raise (wrapped "failed to delete nodepool" e))

  unfoldable pub await_deletion : String → Bool → PoolM W C (Unit {0})
  await_deletion name false = pure tt
  await_deletion name true =
      wrap ("failed waiting for CCE nodepool " <> name <> " to delete") wait_for_nodepool_deleted

  unfoldable pub request_deletion : String → PoolM W C (Unit {0})
  request_deletion name = do
    id ← scope_infra_machine_pool_id
    let cluster_id = infra_cluster_id control_plane
    accepted ← accept_deletion (
        call (Call.delete_node_pool cluster_id id) (cce.delete_node_pool cluster_id id)
        >> pure true)
    await_deletion name accepted

  -- The deferred function: what it fails with replaces the error to be returned.
  unfoldable pub report_deletion : Option Error → PoolM W C (Option Error)
  report_deletion none =
      catch (nodepool_ready_false env deleted_reason "" >> pure none) (λ e. pure (some e))
  report_deletion (some e) =
      catch (nodepool_ready_false env "DeletingFailed" (env.formats.error_text e) >> pure none)
        (λ e'. pure (some e'))

  unfoldable pub delete_nodepool_and_wait : PoolM W C (Unit {0})
  delete_nodepool_and_wait = do
    pool ← get_obj
    nodepool_ready_false env deleting_reason ""
    defer_with (request_deletion pool.meta.name) report_deletion

  unfoldable pub delete_found : Option NodePool → PoolM W C (Unit {0})
  delete_found none = pure tt
  delete_found (some np) = wrap "failed to delete nodepool" delete_nodepool_and_wait

  unfoldable pub reconcile_pool_delete : PoolM W C (Unit {0})
  reconcile_pool_delete = do
    found ← wrap "failed to show CCE nodepool" (show_nodepool control_plane cce)
    delete_found found
