-- ===== src/Cluster/Reconcile/Available.antt =====
-- The part of reconcileCluster, in pkg/cloud/services/cce/cluster.go, up to the wait, for a cluster that
-- is shown as available.
use cluster_api_provider_cce.Prelude.{◌≡◌, refl, true, Option, some, arith}
use cluster_api_provider_cce.Errors.{ok}
use cluster_api_provider_cce.Go.{State, Outcome, ret, deref, wrap, catch, ◌>>=◌}
use cluster_api_provider_cce.Env.{Env}
use cluster_api_provider_cce.Call.{Call}
use cluster_api_provider_cce.Sdk.{ClusterStatus, ShowClusterResponse}
use cluster_api_provider_cce.Api.Meta.{Cluster}
use cluster_api_provider_cce.Api.ControlPlane.{ControlPlane}
use cluster_api_provider_cce.Scope.ControlPlane.{patch_object, mark_false, set_conditions}
use cluster_api_provider_cce.Service.{Service}
use cluster_api_provider_cce.Cluster.Status.{
  with_ready, with_failure, set_available, apply_phase, set_status,
}
use cluster_api_provider_cce.Cluster.Reconcile.{wait_when, wait_if_busy}

module _ {W C : Type 0} (env : Env W C) where
  -- An action that returns, with the control plane ready, and its spec and metadata those of `o`.
  abbrev pub Announced :
      ControlPlane C → Outcome (Unit {0}) × State W (Call C) (ControlPlane C) → Type 0
  Announced o r =
      (r.0 ≡ ret tt)
      × ((r.1.obj.status.ready ≡ true) × ((r.1.obj.spec ≡ o.spec) × (r.1.obj.meta ≡ o.meta)))

  available-Announced :
      (s : State W (Call C) (ControlPlane C)) → Announced s.obj (set_available env s)
  unfolding set_available with_ready with_failure mark_false set_conditions ◌>>=◌
  available-Announced s = ground arith

  module _
      (patches : (cp : ControlPlane C) (w : W)
        → (env.kube.patch_control_plane cp w).0 ≡ ok tt) where
    pub status-Announced :
        (status : ClusterStatus) (s : State W (Call C) (ControlPlane C))
        → status.phase ≡ some "Available"
        → Announced s.obj (wrap "failed to set status" (set_status env (some status)) s)
    unfolding set_status apply_phase patch_object wrap catch ◌>>=◌
    status-Announced status s h =
        let (a, b) = available-Announced s in rw (h, deref, a, patches _ _) (refl, b)

pub idle-wait :
    {W C : Type 0} (env : Env W C) (cluster : Cluster) (svc : Service W)
    (found : Option ShowClusterResponse) (status : ClusterStatus)
    (s : State W (Call C) (ControlPlane C))
    → status.phase ≡ some "Available"
    → wait_if_busy env cluster svc found (some status) s ≡ (ret found, s)
unfolding wait_if_busy wait_when ◌>>=◌
idle-wait env cluster svc found status s h = rw (deref, h) refl
