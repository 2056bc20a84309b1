-- ===== src/Nodepool/Reconcile.antt =====
-- ReconcilePool, reconcileNodepool and waitForNodepoolActive of pkg/cloud/services/cce/nodepool.go.
pub mod Condition
pub mod Quiet
pub mod Order
pub mod Frame
use cluster_api_provider_cce.Prelude.{◌<>◌, Bool, ◌||◌, Option, none, some, ◌==◌}
use cluster_api_provider_cce.Errors.{Error}
use cluster_api_provider_cce.Go.{
  if◌then◌else◌, pure, raise, get_obj, deref, catch, wrap, when, ◌>>=◌, ◌>>◌,
}
use cluster_api_provider_cce.Env.{Env, Severity}
use cluster_api_provider_cce.Call.{PoolM}
use cluster_api_provider_cce.Sdk.{CceClient, NodePool}
use cluster_api_provider_cce.Api.ControlPlane.{ControlPlane}
use cluster_api_provider_cce.Api.MachinePool.{nodepool_ready, nodepool_reconciliation_failed}
use cluster_api_provider_cce.Scope.MachinePool.{mark_true, mark_false, scope_infra_machine_pool_id}
use cluster_api_provider_cce.Service.Wait.{wait_until, poll_interval, max_polls}
use cluster_api_provider_cce.Nodepool.Show.{show_nodepool, create_nodepool}
use cluster_api_provider_cce.Nodepool.Status.{set_status}

module _ {W C : Type 0} (env : Env W C) (control_plane : ControlPlane C) (cce : CceClient W) where
  -- The condition that waitForNodepoolActive polls. A pool that is gone is a nil pointer here.
  unfoldable pub poll_active : PoolM W C Bool
  poll_active = do
    found ← show_nodepool control_plane cce
    np ← deref found
    status ← deref np.status
    phase ← deref status.phase
    pure (phase == "")

  unfoldable pub wait_for_nodepool_active : PoolM W C NodePool
  wait_for_nodepool_active = do
    pool ← get_obj
    wrap ("failed to wait for cce nodepool " <> pool.meta.name)
        (wait_until poll_active poll_interval max_polls)
    found ← wrap "failed to describe CCE nodepool" (show_nodepool control_plane cce)
    np ← deref found
    wrap "failed to set status" (set_status env control_plane cce np)
    pure np

  unfoldable pub find_nodepool : PoolM W C (Option NodePool)
  find_nodepool = do
    id ← scope_infra_machine_pool_id
    if id == "" then pure none else wrap "failed to show nodepool" (show_nodepool control_plane cce)

  unfoldable pub nodepool_or_create : Option NodePool → PoolM W C NodePool
  nodepool_or_create none = wrap "failed to create nodepool" (create_nodepool env control_plane cce)
  nodepool_or_create (some np) = pure np

  -- The `switch` after setStatus.
  unfoldable pub wait_if_busy : NodePool → PoolM W C (Unit {0})
  wait_if_busy np = do
    status ← deref np.status
    phase ← deref status.phase
    when (phase == env.enums.synchronizing || phase == env.enums.synchronized)
        (do wrap "failed to wait for nodepool to be active" wait_for_nodepool_active; pure tt)

  unfoldable pub reconcile_nodepool : PoolM W C (Unit {0})
  reconcile_nodepool = do
    found ← find_nodepool
    np ← nodepool_or_create found
    wrap "failed to set status" (set_status env control_plane cce np)
    wait_if_busy np

  unfoldable pub pool_failed : Error → PoolM W C (Unit {0})
  pool_failed e = do
    mark_false env nodepool_ready nodepool_reconciliation_failed Severity.error
        (env.formats.error_text e)
    raise e

  unfoldable pub reconcile_pool : PoolM W C (Unit {0})
  reconcile_pool = do catch reconcile_nodepool pool_failed; mark_true env nodepool_ready
