-- ===== src/Nodepool/Reconcile/Condition.antt =====
-- The condition that ReconcilePool of pkg/cloud/services/cce/nodepool.go reports.
use cluster_api_provider_cce.Prelude.{◌≡◌, true, false}
use cluster_api_provider_cce.Go.{State, Outcome, ret, fail, panic, continue, recover, catch, ◌>>=◌}
use cluster_api_provider_cce.Env.{Env}
use cluster_api_provider_cce.Call.{Call}
use cluster_api_provider_cce.Sdk.{CceClient}
use cluster_api_provider_cce.Api.ControlPlane.{ControlPlane}
use cluster_api_provider_cce.Api.MachinePool.{ManagedMachinePool, nodepool_ready}
use cluster_api_provider_cce.Scope.MachinePool.{set_conditions, mark_true, mark_false}
use cluster_api_provider_cce.Nodepool.Reconcile.{reconcile_nodepool, pool_failed, reconcile_pool}

-- The condition says how the reconciliation ended, if it did not panic.
abbrev pub PoolReported :
    {W C : Type 0} → Env W C → Outcome (Unit {0}) × State W (Call C) (ManagedMachinePool C) → Type 0
PoolReported env (ret u, s) = env.conditions.is_true nodepool_ready s.obj.status.conditions ≡ true
PoolReported env (fail e, s) = env.conditions.is_true nodepool_ready s.obj.status.conditions ≡ false
PoolReported env (panic, s) = Unit {0}

module _ {W C : Type 0} (env : Env W C) (control_plane : ControlPlane C) (cce : CceClient W) where
  by_outcome :
      (r : Outcome (Unit {0})) (t : State W (Call C) (ManagedMachinePool C))
      → let recovered = recover r (pool_failed env control_plane cce) t in
        PoolReported env (continue recovered.0 (λ _. mark_true env nodepool_ready) recovered.1)
  unfolding pool_failed mark_true mark_false set_conditions ◌>>=◌
  by_outcome (ret u) t = env.conditions.is_true-mark_true_self _ _
  by_outcome (fail e) t = env.conditions.is_true-mark_false_self _ _ _ _ _
  by_outcome panic t = tt

  -- ReconcilePool that returns leaves its condition true, also where the pool is not ready yet; where
  -- it fails, the condition is not true.
  pub pool-Reported :
      (s : State W (Call C) (ManagedMachinePool C))
      → PoolReported env (reconcile_pool env control_plane cce s)
  unfolding reconcile_pool catch ◌>>=◌
  pool-Reported s =
      by_outcome (reconcile_nodepool env control_plane cce s).0
        (reconcile_nodepool env control_plane cce s).1
