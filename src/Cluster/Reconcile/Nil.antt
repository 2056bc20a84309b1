-- ===== src/Cluster/Reconcile/Nil.antt =====
-- The nil pointer that the debug line of reconcileCluster, in pkg/cloud/services/cce/cluster.go,
-- dereferences.
use cluster_api_provider_cce.Prelude.{◌≡◌, refl, true, false, none, some, ◌∷◌, ◌==◌}
use cluster_api_provider_cce.Errors.{ok}
use cluster_api_provider_cce.Go.{State, panic, deref, wrap, catch, ◌>>=◌}
use cluster_api_provider_cce.Env.{Env}
use cluster_api_provider_cce.Call.{Call}
use cluster_api_provider_cce.Sdk.{ClusterStatus}
use cluster_api_provider_cce.Api.Meta.{Cluster}
use cluster_api_provider_cce.Api.ControlPlane.{ControlPlane, infra_cluster_id}
use cluster_api_provider_cce.Scope.ControlPlane.{scope_infra_cluster_id}
use cluster_api_provider_cce.Service.{Service}
use cluster_api_provider_cce.Cluster.Show.{show_cce_cluster}
use cluster_api_provider_cce.Cluster.Reconcile.Available.{status-Announced, idle-wait}
use cluster_api_provider_cce.Cluster.Reconcile.{
  find_cluster, status_or_create, read_endpoints, reconcile_ready, reconcile_cluster,
  reconcile_control_plane,
}

module _ {W C : Type 0} (env : Env W C) where
  module _ (cluster : Cluster) (svc : Service W)
      (patches : (cp : ControlPlane C) (w : W)
        → (env.kube.patch_control_plane cp w).0 ≡ ok tt) where
    ready-panics :
        (status : ClusterStatus) (s : State W (Call C) (ControlPlane C))
        → status.endpoints ≡ none
        → reconcile_ready env cluster svc (some (record { status = some status })) s ≡ (panic, s)
    unfolding reconcile_ready read_endpoints ◌>>=◌
    ready-panics status s h = rw (deref, h) refl

    -- A cluster that CCE shows as Available without endpoints, where patches succeed: ReconcileControlPlane
    -- panics, and leaves the control plane as ready.
    pub available-panics :
        (status : ClusterStatus) (w : W) (s : State W (Call C) (ControlPlane C))
        → (infra_cluster_id s.obj == "") ≡ false
        → svc.cce.show_cluster (infra_cluster_id s.obj) s.world
          ≡ (ok (record { status = some status }), w)
        → status.phase ≡ some "Available"
        → status.endpoints ≡ none
        → ((reconcile_control_plane env cluster svc s).0 ≡ panic)
          × ((reconcile_control_plane env cluster svc s).1.obj.status.ready ≡ true)
    unfolding reconcile_control_plane reconcile_cluster find_cluster scope_infra_cluster_id
        show_cce_cluster status_or_create catch ◌>>=◌
    available-panics status w s id shown phase none_ =
        let t : State W (Call C) (ControlPlane C) = record s {
          world = w;
          trace = Call.show_cluster (infra_cluster_id s.obj) ∷ s.trace;
        } in
        let (a, (b, c)) = status-Announced env patches status t phase in
        rw
          (
            id,
            wrap,
            shown,
            a,
            idle-wait env cluster svc _ status _ phase,
            b,
            ready-panics status _ none_,
          )
          (refl, b)
