-- ===== src/Nodepool/Reconcile/Order.antt =====
-- What ReconcilePool of pkg/cloud/services/cce/nodepool.go creates.
use cluster_api_provider_cce.Prelude.{ℕ, refl, Option, none, some, List, arith}
use cluster_api_provider_cce.Go.{State}
use cluster_api_provider_cce.Go.Keeps.{
  Keeps-bind, Keeps-then, Keeps-deref, Keeps-wrap, Keeps-pure, Keeps-get_obj,
}
use cluster_api_provider_cce.Go.Ranks.{
  Upto, Upto-start, Goes, Goes-keep, Goes-call, Goes-catch, Goes-wrap, Goes-after, Goes-before,
  Goes-from,
}
use cluster_api_provider_cce.Env.{Env}
use cluster_api_provider_cce.Call.{Call, PoolM}
use cluster_api_provider_cce.Sdk.{CceClient, NodePool}
use cluster_api_provider_cce.Api.ControlPlane.{ControlPlane}
use cluster_api_provider_cce.Api.MachinePool.{ManagedMachinePool}
use cluster_api_provider_cce.Nodepool.Show.{create_nodepool}
use cluster_api_provider_cce.Nodepool.Reconcile.{
  nodepool_or_create, reconcile_nodepool, reconcile_pool,
}
use cluster_api_provider_cce.Nodepool.Reconcile.Quiet.{pool_rank, quiet}
use cluster_api_provider_cce.Nodepool.Frame.{
  find-Keeps, status-Keeps, busy-Keeps, failed-Keeps, mark_true-Keeps, response-Keeps, id-Keeps,
}

module _ {W C : Type 0} (env : Env W C) (control_plane : ControlPlane C) (cce : CceClient W)
    (before : List (Call C)) where
  abbrev PoolSteps : {A : Type 0} → ℕ → ℕ → PoolM W C A → Type 0
  PoolSteps n m a = Goes pool_rank before n m a

  create-Steps : PoolSteps 0 1 (create_nodepool env control_plane cce)
  unfolding create_nodepool
  create-Steps = Goes-after 0 1 Keeps-get_obj (omega arith) (λ pool.
      Goes-after 0 1 (Keeps-deref _) (omega arith) (λ root.
        Goes-after 0 1 (Keeps-deref _) (omega arith) (λ subnet.
          Goes-before 0 1 (Goes-wrap 0 1 _ _ (Goes-call 0 0 _ _ refl (omega arith))) (λ r.
            Keeps-bind _ _ (Keeps-deref _) (λ m. Keeps-bind _ _ (Keeps-deref _) (λ uid.
              Keeps-then _ _ (id-Keeps (quiet before 1) env control_plane cce uid)
                (response-Keeps (quiet before 1) env control_plane cce r)))))))

  made-Steps :
      (found : Option NodePool) → PoolSteps 0 1 (nodepool_or_create env control_plane cce found)
  unfolding nodepool_or_create
  made-Steps none = Goes-wrap 0 1 _ _ create-Steps
  made-Steps (some np) = Goes-from 0 0 1 (Goes-keep 0 (Keeps-pure np)) (omega arith)

  nodepool-Steps : PoolSteps 0 1 (reconcile_nodepool env control_plane cce)
  unfolding reconcile_nodepool
  nodepool-Steps =
      Goes-after 0 1 (find-Keeps (quiet before 0) env control_plane cce) (omega arith) (λ found.
        Goes-before 0 1 (made-Steps found) (λ np.
          Keeps-then _ _ (Keeps-wrap _ _ (status-Keeps (quiet before 1) env control_plane cce np))
            (busy-Keeps (quiet before 1) env control_plane cce np)))

  pool-Steps : PoolSteps 0 1 (reconcile_pool env control_plane cce)
  unfolding reconcile_pool
  pool-Steps =
      Goes-before 0 1
        (Goes-catch 0 1 1 _ _ nodepool-Steps
          (λ e. Goes-keep 1 (failed-Keeps (quiet before 1) env control_plane cce e)) (omega arith))
        (λ _. mark_true-Keeps (quiet before 1) env control_plane cce _)

-- ReconcilePool, however it ends, creates one node pool at most and deletes none; its other calls show
-- the node pool, list the nodes, pause, or patch the machine pool.
pub reconcile_pool-Ordered :
    {W C : Type 0} (env : Env W C) (control_plane : ControlPlane C) (cce : CceClient W)
    (s : State W (Call C) (ManagedMachinePool C))
    → Upto pool_rank s.trace 1 (reconcile_pool env control_plane cce s).1
reconcile_pool-Ordered env control_plane cce s =
    (pool-Steps env control_plane cce s.trace).at s (Upto-start s refl)
