-- ===== src/Cluster/Reconcile/Condition.antt =====
-- The condition that ReconcileControlPlane of pkg/cloud/services/cce/cluster.go reports.
use cluster_api_provider_cce.Prelude.{◌≡◌, true, false}
use cluster_api_provider_cce.Go.{State, Outcome, ret, fail, panic, continue, recover, catch, ◌>>=◌}
use cluster_api_provider_cce.Env.{Env}
use cluster_api_provider_cce.Call.{Call}
use cluster_api_provider_cce.Api.Meta.{Cluster}
use cluster_api_provider_cce.Api.ControlPlane.{ControlPlane, control_plane_ready}
use cluster_api_provider_cce.Scope.ControlPlane.{set_conditions, mark_true, mark_false}
use cluster_api_provider_cce.Service.{Service}
use cluster_api_provider_cce.Cluster.Reconcile.{
  reconcile_cluster, control_plane_failed, reconcile_control_plane,
}

-- The condition says how the reconciliation ended, if it did not panic.
abbrev pub Reported :
    {W C : Type 0} → Env W C → Outcome (Unit {0}) × State W (Call C) (ControlPlane C) → Type 0
Reported env (ret u, s) = env.conditions.is_true control_plane_ready s.obj.status.conditions ≡ true
Reported env (fail e, s) =
    env.conditions.is_true control_plane_ready s.obj.status.conditions ≡ false
Reported env (panic, s) = Unit {0}

module _ {W C : Type 0} (env : Env W C) (cluster : Cluster) (svc : Service W) where
  by_outcome :
      (r : Outcome (Unit {0})) (t : State W (Call C) (ControlPlane C))
      → let recovered = recover r (control_plane_failed env cluster svc) t in
        Reported env (continue recovered.0 (λ _. mark_true env control_plane_ready) recovered.1)
  unfolding control_plane_failed mark_true mark_false set_conditions ◌>>=◌
  by_outcome (ret u) t = env.conditions.is_true-mark_true_self _ _
  by_outcome (fail e) t = env.conditions.is_true-mark_false_self _ _ _ _ _
  by_outcome panic t = tt

  -- ReconcileControlPlane that returns leaves its condition true; where it fails, the condition is not
  -- true.
  pub control_plane-Reported :
      (s : State W (Call C) (ControlPlane C))
      → Reported env (reconcile_control_plane env cluster svc s)
  unfolding reconcile_control_plane catch ◌>>=◌
  control_plane-Reported s =
      by_outcome (reconcile_cluster env cluster svc s).0 (reconcile_cluster env cluster svc s).1
