-- ===== src/Cluster/Delete.antt =====
-- DeleteControlPlane of pkg/cloud/services/cce/cluster.go, and what it calls.
pub mod Safety
pub mod Progress
pub mod Early
use cluster_api_provider_cce.Prelude.{
  String, ◌<>◌, Bool, true, false, not, Option, none, some, ◌==◌,
}
use cluster_api_provider_cce.Errors.{wrapped}
use cluster_api_provider_cce.Go.{if◌then◌else◌, pure, raise, deref, call, catch, wrap, ◌>>=◌, ◌>>◌}
use cluster_api_provider_cce.Env.{Env}
use cluster_api_provider_cce.Call.{Call, CpM}
use cluster_api_provider_cce.Sdk.{ShowClusterResponse}
use cluster_api_provider_cce.Api.Meta.{Cluster}
use cluster_api_provider_cce.Scope.ControlPlane.{scope_infra_cluster_id}
use cluster_api_provider_cce.Service.{Service}
use cluster_api_provider_cce.Service.Wait.{wait_until, poll_interval, max_polls}
use cluster_api_provider_cce.Cluster.Show.{is_404, show_cce_cluster}

module _ {W C : Type 0} (env : Env W C) (cluster : Cluster) (svc : Service W) where
  -- Deleted: not there any more, or in any phase but the one of deletion.
  unfoldable pub deletion_over : Option ShowClusterResponse → CpM W C Bool
  deletion_over none = pure true
  deletion_over (some response) = do
    status ← deref response.status
    phase ← deref status.phase
    pure (not (phase == env.enums.deleting))

  unfoldable pub poll_deleted : String → CpM W C Bool
  poll_deleted id = do found ← show_cce_cluster svc id; deletion_over found

  unfoldable pub wait_for_cluster_deleted : String → CpM W C (Unit {0})
  wait_for_cluster_deleted id = wait_until (poll_deleted id) poll_interval max_polls

  -- DeleteCluster answers 404: there is nothing to wait for.
  unfoldable pub accept_deletion : CpM W C Bool → CpM W C Bool
  accept_deletion request =
      catch request
        (λ e. if is_404 e then pure false else raise (wrapped "failed to delete cce cluster" e))

  unfoldable pub await_deletion : String → Bool → CpM W C (Unit {0})
  await_deletion id false = pure tt
  await_deletion id true =
      wrap ("failed waiting for cce cluster " <> cluster.meta.name <> " to delete")
        (wait_for_cluster_deleted id)

  unfoldable pub delete_cluster_and_wait : String → CpM W C (Unit {0})
  delete_cluster_and_wait id = do
    accepted ←
        accept_deletion (call (Call.delete_cluster id) (svc.cce.delete_cluster id) >> pure true)
    await_deletion id accepted

  -- A cluster that CCE does not know is deleted already.
  unfoldable pub delete_found : String → Option ShowClusterResponse → CpM W C (Unit {0})
  delete_found id none = pure tt
  delete_found id (some response) = wrap "unable to delete CCE cluster" (delete_cluster_and_wait id)

  unfoldable pub delete_by_id : String → CpM W C (Unit {0})
  delete_by_id id = if id == "" then pure tt else do
    found ← wrap "unable to show CCE cluster" (show_cce_cluster svc id)
    delete_found id found

  unfoldable pub delete_cluster : CpM W C (Unit {0})
  delete_cluster = do id ← scope_infra_cluster_id; delete_by_id id

  unfoldable pub delete_control_plane : CpM W C (Unit {0})
  delete_control_plane = delete_cluster
