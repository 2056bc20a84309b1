-- ===== src/Nodepool/Reconcile/Frame.antt =====
-- The finalizers of the machine pool in ReconcilePool of pkg/cloud/services/cce/nodepool.go.
use cluster_api_provider_cce.Prelude.{String, ◌≡◌, ◌∙◌, Option, none, some, List}
use cluster_api_provider_cce.Errors.{Result}
use cluster_api_provider_cce.Go.{State, call}
use cluster_api_provider_cce.Go.Keeps.{
  Keeps, Keeps-bind, Keeps-then, Keeps-deref, Keeps-wrap, Keeps-pure, Keeps-get_obj, Keeps-catch,
  Keeps-call, Keeps-emit, Keeps-modify,
}
use cluster_api_provider_cce.Env.{Env}
use cluster_api_provider_cce.Call.{Call}
use cluster_api_provider_cce.Sdk.{CceClient, NodePool}
use cluster_api_provider_cce.Api.ControlPlane.{ControlPlane}
use cluster_api_provider_cce.Api.MachinePool.{ManagedMachinePool}
use cluster_api_provider_cce.Nodepool.Frame.{
  Quiet, find-Keeps, status-Keeps, busy-Keeps, failed-Keeps, mark_true-Keeps, response-Keeps,
  id-Keeps,
}
use cluster_api_provider_cce.Nodepool.Show.{create_nodepool}
use cluster_api_provider_cce.Nodepool.Reconcile.{
  nodepool_or_create, reconcile_nodepool, reconcile_pool,
}

module _ {W C : Type 0} (l : List String) where
  abbrev pub Kept : State W (Call C) (ManagedMachinePool C) → Type 0
  Kept s = s.obj.meta.finalizers ≡ l

  pub call-Kept : {A : Type 0} (c : Call C) (f : W → Result A × W) → Keeps Kept (call c f)
  call-Kept c f = Keeps-call c f (λ s w h. h)

  abbrev pub quiet : Quiet Kept
  quiet = record {
    on_call = λ c f q. call-Kept c f;
    on_emit = λ c q. Keeps-emit c (λ s h. h);
    on_edit = λ f k. Keeps-modify f (λ s h. k s.obj ∙ h);
  }

module _ {W C : Type 0} (env : Env W C) (control_plane : ControlPlane C) (cce : CceClient W)
    (l : List String) where
  create-Kept : Keeps (Kept l) (create_nodepool env control_plane cce)
  unfolding create_nodepool
  create-Kept = Keeps-bind _ _ Keeps-get_obj (λ pool. Keeps-bind _ _ (Keeps-deref _) (λ root.
      Keeps-bind _ _ (Keeps-deref _) (λ subnet.
        Keeps-bind _ _ (Keeps-wrap _ _ (call-Kept l _ _)) (λ r. Keeps-bind _ _ (Keeps-deref _) (λ m.
          Keeps-bind _ _ (Keeps-deref _) (λ uid.
            Keeps-then _ _ (id-Keeps (quiet l) env control_plane cce uid)
              (response-Keeps (quiet l) env control_plane cce r)))))))

  made-Kept :
      (found : Option NodePool) → Keeps (Kept l) (nodepool_or_create env control_plane cce found)
  unfolding nodepool_or_create
  made-Kept none = Keeps-wrap _ _ create-Kept
  made-Kept (some np) = Keeps-pure np

  nodepool-Kept : Keeps (Kept l) (reconcile_nodepool env control_plane cce)
  unfolding reconcile_nodepool
  nodepool-Kept = Keeps-bind _ _ (find-Keeps (quiet l) env control_plane cce) (λ found.
      Keeps-bind _ _ (made-Kept found) (λ np.
        Keeps-then _ _ (Keeps-wrap _ _ (status-Keeps (quiet l) env control_plane cce np))
          (busy-Keeps (quiet l) env control_plane cce np)))

  pub reconcile_pool-Kept : Keeps (Kept l) (reconcile_pool env control_plane cce)
  unfolding reconcile_pool
  reconcile_pool-Kept =
      Keeps-then _ _ (Keeps-catch _ _ nodepool-Kept (failed-Keeps (quiet l) env control_plane cce))
        (mark_true-Keeps (quiet l) env control_plane cce _)
