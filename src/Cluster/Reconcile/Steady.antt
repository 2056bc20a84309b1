-- ===== src/Cluster/Reconcile/Steady.antt =====
-- What reconcileCluster of pkg/cloud/services/cce/cluster.go makes of a cluster that is available.
use cluster_api_provider_cce.Prelude.{
  ◌≡◌, refl, ap, true, false, Option, some, List, ◌∷◌, map, ◌==◌,
}
use cluster_api_provider_cce.Errors.{ok}
use cluster_api_provider_cce.Go.{State, ret, deref, wrap, catch, when, ◌>>=◌}
use cluster_api_provider_cce.Env.{Env}
use cluster_api_provider_cce.Call.{Call}
use cluster_api_provider_cce.Sdk.{ClusterStatus, ClusterEndpoint}
use cluster_api_provider_cce.Api.Meta.{Cluster}
use cluster_api_provider_cce.Api.ControlPlane.{
  ControlPlane, ControlPlaneSpec, EndpointAccess, infra_cluster_id, control_plane_ready,
}
use cluster_api_provider_cce.Scope.ControlPlane.{scope_infra_cluster_id, mark_true, set_conditions}
use cluster_api_provider_cce.Service.{Service}
use cluster_api_provider_cce.Kubeconfig.{with_initialized}
use cluster_api_provider_cce.Cluster.Show.{show_cce_cluster}
use cluster_api_provider_cce.Cluster.Status.{set_status}
use cluster_api_provider_cce.Cluster.Reconcile.{
  with_endpoint, read_endpoints, reconcile_public_access, choose_endpoint, reconcile_ready,
  reconcile_cluster, reconcile_control_plane, find_cluster, status_or_create,
}
use cluster_api_provider_cce.Cluster.Reconcile.Endpoint.{
  FullEndpoint, to_endpoint, latest, Parses, at_endpoint, choose_endpoint-latest,
}
use cluster_api_provider_cce.Kubeconfig.Progress.{Certifies, kubeconfig-done}
use cluster_api_provider_cce.Cluster.Reconcile.Available.{status-Announced, idle-wait}

module _ {W C : Type 0} (env : Env W C) (cluster : Cluster) (svc : Service W) where
  -- The end of a ready control plane's reconciliation: its endpoint, and the mark of its kubeconfig.
  abbrev pub served : List FullEndpoint → ControlPlane C → ControlPlane C
  served es cp = with_initialized (
      with_endpoint (latest "External" (latest "Internal" cp.spec.control_plane_endpoint es) es) cp)

  private_access :
      (s : State W (Call C) (ControlPlane C)) (access : EndpointAccess)
      → s.obj.spec.endpoint_access ≡ some access
      → access.is_public ≡ some false
      → reconcile_public_access env cluster svc s ≡ (ret tt, s)
  unfolding reconcile_public_access when ◌>>=◌
  private_access s access a p = rw (a, deref, p) refl

  endpoints_read :
      (status : ClusterStatus) (eps : List ClusterEndpoint) (s : State W (Call C) (ControlPlane C))
      → status.endpoints ≡ some eps
      → read_endpoints env cluster svc (some (record { status = some status })) s ≡ (ret eps, s)
  unfolding read_endpoints ◌>>=◌
  endpoints_read status eps s h = rw (deref, h) refl

  endpoints_chosen :
      (o : Option (List ClusterEndpoint)) (es : List FullEndpoint)
      (s : State W (Call C) (ControlPlane C))
      → o ≡ some (map to_endpoint es)
      → Parses env es
      → choose_endpoint env o s ≡ (
        ret tt,
        at_endpoint env
            (latest "External" (latest "Internal" s.obj.spec.control_plane_endpoint es) es)
            s,
      )
  endpoints_chosen o es s h p = rw h (choose_endpoint-latest env es s p)

  module _ (status : ClusterStatus) (es : List FullEndpoint) (access : EndpointAccess)
      (reads : status.endpoints ≡ some (map to_endpoint es)) (parses : Parses env es)
      (is_private : access.is_public ≡ some false) where
    ready-served :
        (s : State W (Call C) (ControlPlane C))
        → s.obj.spec.endpoint_access ≡ some access
        → ((w : W)
            → (svc.cce.show_cluster (infra_cluster_id s.obj) w).0
              ≡ ok (record { status = some status }))
        → Certifies env cluster svc (infra_cluster_id s.obj)
        → ((reconcile_ready env cluster svc (some (record { status = some status })) s).0 ≡ ret tt)
          × ((reconcile_ready env cluster svc (some (record { status = some status })) s).1.obj
              ≡ served es s.obj)
    unfolding reconcile_ready show_cce_cluster scope_infra_cluster_id infra_cluster_id with_endpoint
        with_initialized catch ◌>>=◌
    ready-served s a shows c =
        let t : State W (Call C) (ControlPlane C) = record s {
          world = (svc.cce.show_cluster (infra_cluster_id s.obj) s.world).1;
          trace = Call.show_cluster (infra_cluster_id s.obj) ∷ s.trace;
        } in
        rw
          (
            endpoints_read status (map to_endpoint es) s reads,
            private_access s access a is_private,
            wrap,
            shows,
            deref,
            endpoints_chosen status.endpoints es t reads parses,
          )
          (kubeconfig-done env cluster svc _ "failed reconciling kubeconfig" c)

    same_id : (o p : ControlPlane C) → o.meta ≡ p.meta → infra_cluster_id o ≡ infra_cluster_id p
    unfolding infra_cluster_id
    same_id o p e = rw e refl

    module _ (available : status.phase ≡ some "Available")
        (patches : (cp : ControlPlane C) (w : W)
          → (env.kube.patch_control_plane cp w).0 ≡ ok tt) where
      cluster-served :
          (s : State W (Call C) (ControlPlane C))
          → (infra_cluster_id s.obj == "") ≡ false
          → s.obj.spec.endpoint_access ≡ some access
          → ((w : W)
              → (svc.cce.show_cluster (infra_cluster_id s.obj) w).0
                ≡ ok (record { status = some status }))
          → Certifies env cluster svc (infra_cluster_id s.obj)
          → ((reconcile_cluster env cluster svc s).0 ≡ ret tt)
            × ((o : ControlPlane C) × ((o.spec ≡ s.obj.spec)
                  × ((o.status.ready ≡ true)
                      × ((reconcile_cluster env cluster svc s).1.obj ≡ served es o))))
      unfolding reconcile_cluster find_cluster scope_infra_cluster_id show_cce_cluster
          status_or_create catch ◌>>=◌
      cluster-served s id a shows c =
          let t : State W (Call C) (ControlPlane C) = record s {
            world = (svc.cce.show_cluster (infra_cluster_id s.obj) s.world).1;
            trace = Call.show_cluster (infra_cluster_id s.obj) ∷ s.trace;
          } in
          let u : State W (Call C) (ControlPlane C) =
            (wrap "failed to set status" (set_status env (some status)) t).1 in
          let (h, (r, (sp, me))) = status-Announced env patches status t available in
          let same : infra_cluster_id u.obj ≡ infra_cluster_id s.obj = same_id u.obj s.obj me in
          let (x, y) = ready-served u (rw sp a) (rw same shows) (rw same c) in
          rw (id, wrap, shows, h, idle-wait env cluster svc _ status _ available, when, r, x)
            (refl, (u.obj, (sp, (r, y))))

      -- Where CCE keeps showing the cluster of the label as available, with endpoints that have their
      -- kinds and URLs that parse, where public access is switched off, the kubeconfig can be made and
      -- patches succeed: ReconcileControlPlane returns, and leaves the control plane ready and
      -- initialised, with its condition true and with the last external endpoint, or else the last
      -- internal one, or else the one it had.
      pub available-served :
          (s : State W (Call C) (ControlPlane C))
          → (infra_cluster_id s.obj == "") ≡ false
          → s.obj.spec.endpoint_access ≡ some access
          → ((w : W)
              → (svc.cce.show_cluster (infra_cluster_id s.obj) w).0
                ≡ ok (record { status = some status }))
          → Certifies env cluster svc (infra_cluster_id s.obj)
          → let (r, t) = reconcile_control_plane env cluster svc s in
            (r ≡ ret tt)
            × ((t.obj.status.ready ≡ true)
                × ((t.obj.status.initialized ≡ true)
                    × ((env.conditions.is_true control_plane_ready t.obj.status.conditions ≡ true)
                        × (t.obj.spec.control_plane_endpoint
                            ≡ latest "External"
                                (latest "Internal" s.obj.spec.control_plane_endpoint es)
                                es))))
      unfolding reconcile_control_plane mark_true set_conditions with_initialized with_endpoint
          catch ◌>>=◌
      available-served s id a shows c =
          let (h, (o, (sp, (r, y)))) = cluster-served s id a shows c in
          rw (h, y)
            (
              refl,
              (
                r,
                (
                  refl,
                  (
                    env.conditions.is_true-mark_true_self control_plane_ready o.status.conditions,
                    ap
                        (λ (z : ControlPlaneSpec).
                          latest "External" (latest "Internal" z.control_plane_endpoint es) es)
                        sp,
                  ),
                ),
              ),
            )
