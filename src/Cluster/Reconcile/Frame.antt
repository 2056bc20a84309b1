-- ===== src/Cluster/Reconcile/Frame.antt =====
-- The finalizers stay as they are in ReconcileControlPlane.
use cluster_api_provider_cce.Prelude.{String, ◌≡◌, refl, ap, ◌∙◌, Option, none, some, List}
use cluster_api_provider_cce.Errors.{Result}
use cluster_api_provider_cce.Go.{State, Outcome, ret, fail, panic, call, modify}
use cluster_api_provider_cce.Go.Keeps.{
  Keeps, Keeps-call, Keeps-emit, Keeps-modify, Keeps-wrap, Keeps-get_obj, Keeps-bind, Keeps-then,
  Keeps-when, keeps_rules,
}
use cluster_api_provider_cce.Go.Returns.{Returns}
use cluster_api_provider_cce.Env.{Env}
use cluster_api_provider_cce.Call.{Call, CpM}
use cluster_api_provider_cce.Sdk.{ShowClusterResponse}
use cluster_api_provider_cce.Api.Meta.{Cluster}
use cluster_api_provider_cce.Api.ControlPlane.{ControlPlane}
use cluster_api_provider_cce.Scope.ControlPlane.{scope_infra_cluster_id}
use cluster_api_provider_cce.Service.{Service}
use cluster_api_provider_cce.Eip.{with_eip_id, create_and_bind_eip, reconcile_eip}
use cluster_api_provider_cce.Kubeconfig.{with_initialized, reconcile_kubeconfig}
use cluster_api_provider_cce.Kubeconfig.Frame.{kubeconfig-Returns}
use cluster_api_provider_cce.Cluster.Frame.{
  Quiet, id-Keeps, mark_true-Keeps, choose-Keeps, status-Keeps, show-Keeps, find-Keeps, busy-Keeps,
  read-Keeps, failed-Keeps,
}
use cluster_api_provider_cce.Cluster.Create.{create_cluster}
use cluster_api_provider_cce.Cluster.Reconcile.{
  status_or_create, reconcile_public_access, reconcile_ready, reconcile_cluster,
  reconcile_control_plane,
}

module _ {W C : Type 0} (env : Env W C) (cluster : Cluster) (svc : Service W)
    (l : List String) where
  abbrev pub Same : State W (Call C) (ControlPlane C) → Type 0
  Same s = s.obj.meta.finalizers ≡ l

  abbrev Keeping : {A : Type 0} → CpM W C A → Type 0
  Keeping m = Keeps Same m

  call-Same : {A : Type 0} (c : Call C) (f : W → Result A × W) → Keeping (call c f)
  call-Same c f = Keeps-call c f (λ s w h. h)

  edit-Same :
      (f : ControlPlane C → ControlPlane C)
      → ((o : ControlPlane C) → (f o).meta.finalizers ≡ o.meta.finalizers)
      → Keeping (modify f)
  edit-Same f k = Keeps-modify f (λ s h. k s.obj ∙ h)

  abbrev quiet : Quiet Same
  quiet = record {
    on_call = λ c f q. call-Same c f;
    on_emit = λ c q. Keeps-emit c (λ s h. h);
    on_edit = edit-Same;
  }

  eip_id-Same : (id : String) → Keeping (modify (with_eip_id id))
  unfolding with_eip_id
  eip_id-Same id = edit-Same _ (λ o. refl)

  eip-Same : Keeping (reconcile_eip env svc)
  unfolding reconcile_eip create_and_bind_eip scope_infra_cluster_id
  eip-Same = search (keeps_rules, call-Same, eip_id-Same) depth 12

  create-Same : Keeping (create_cluster env svc cluster)
  unfolding create_cluster
  create-Same = search (keeps_rules, call-Same, id-Keeps quiet, mark_true-Keeps quiet env) depth 12

  made-Same :
      (found : Option ShowClusterResponse) → Keeping (status_or_create env cluster svc found)
  unfolding status_or_create
  made-Same none = search (keeps_rules, create-Same)
  made-Same (some response) = search keeps_rules

  access-Same : Keeping (reconcile_public_access env cluster svc)
  unfolding reconcile_public_access
  access-Same = search (keeps_rules, eip-Same) depth 9

  by_return :
      (old : ControlPlane C) (r : Outcome (Unit {0}) × State W (Call C) (ControlPlane C))
      → Returns (λ (u : Unit {0}) o. o ≡ with_initialized old) (λ o. o ≡ old) r
      → r.1.obj.meta.finalizers ≡ old.meta.finalizers
  unfolding with_initialized
  by_return old (ret _, s) h = ap (λ (o : ControlPlane C). o.meta.finalizers) h
  by_return old (fail e, s) h = ap (λ (o : ControlPlane C). o.meta.finalizers) h
  by_return old (panic, s) h = ap (λ (o : ControlPlane C). o.meta.finalizers) h

  kubeconfig-Same : Keeping (reconcile_kubeconfig env cluster svc)
  kubeconfig-Same = record {
    at = λ s h.
        by_return s.obj (reconcile_kubeconfig env cluster svc s)
          (kubeconfig-Returns env cluster svc s)
        ∙ h;
  }

  ready_part-Same :
      (found : Option ShowClusterResponse) → Keeping (reconcile_ready env cluster svc found)
  unfolding reconcile_ready scope_infra_cluster_id
  ready_part-Same found =
      search
        (
          keeps_rules,
          read-Keeps quiet env svc cluster,
          access-Same,
          show-Keeps quiet svc,
          choose-Keeps quiet env,
          kubeconfig-Same,
        )
        depth 14

  cluster-Same : Keeping (reconcile_cluster env cluster svc)
  unfolding reconcile_cluster
  cluster-Same = Keeps-bind _ _ (find-Keeps quiet env svc cluster) (λ found.
      Keeps-bind _ _ (made-Same found) (λ status.
        Keeps-then _ _ (Keeps-wrap _ _ (status-Keeps quiet env status)) (
          Keeps-bind _ _ (busy-Keeps quiet env svc cluster found status) (λ active.
            Keeps-bind _ _ Keeps-get_obj (λ cp. Keeps-when _ _ (λ _. ready_part-Same active))))))

  pub control_plane-Same : Keeping (reconcile_control_plane env cluster svc)
  unfolding reconcile_control_plane
  control_plane-Same =
      search
        (keeps_rules, cluster-Same, failed-Keeps quiet env svc cluster, mark_true-Keeps quiet env)
