-- ===== src/Tests/Orders.antt =====
-- The theorems on the order of calls, and on the start-up, at concrete inputs.
use cluster_api_provider_cce.Prelude.{ℕ, ◌≡◌, refl, [], ◌∷◌, if◌then◌else◌, eqb}
use cluster_api_provider_cce.Errors.{other}
use cluster_api_provider_cce.Go.{State}
use cluster_api_provider_cce.Go.Ranks.{Upto}
use cluster_api_provider_cce.Call.{Call}
use cluster_api_provider_cce.Api.ControlPlane.{ControlPlane, managed_control_plane_finalizer}
use cluster_api_provider_cce.Cluster.Ranks.{step_rank}
use cluster_api_provider_cce.Nodepool.Reconcile.{reconcile_pool}
use cluster_api_provider_cce.Nodepool.Reconcile.Quiet.{pool_rank}
use cluster_api_provider_cce.Nodepool.Reconcile.Order.{reconcile_pool-Ordered}
use cluster_api_provider_cce.Controller.ControlPlane.{
  with_finalizers, reconcile_external, reconcile_normal,
}
use cluster_api_provider_cce.Controller.ControlPlane.Order.{
  reconcile_normal-Ordered, finalizer-first,
}
use cluster_api_provider_cce.Manager.{Setup, Manager}
use cluster_api_provider_cce.Main.{init_flags, main}
use cluster_api_provider_cce.Main.Performs.{unnamed, run_plan}
use cluster_api_provider_cce.Main.Plan.{plan, main-planned}
use cluster_api_provider_cce.Tests.World.{Marks}
use cluster_api_provider_cce.Tests.Cloud.{env, svc, answer, refuse}
use cluster_api_provider_cce.Tests.Objects.{cluster, control_plane, on_control_plane, on_pool}

reconcile_normal-Ordered_example :
    Upto step_rank [] 8 (reconcile_normal env 60 cluster (on_control_plane "" "" "")).1
reconcile_normal-Ordered_example =
    reconcile_normal-Ordered env cluster (on_control_plane "" "" "") 60

reconcile_pool-Ordered_example :
    Upto pool_rank [] 1 (reconcile_pool env (control_plane "cce-1" "" "") svc.cce on_pool).1
reconcile_pool-Ordered_example =
    reconcile_pool-Ordered env (control_plane "cce-1" "" "") svc.cce on_pool

-- A control plane that does not have its finalizer yet.
abbrev new_control_plane : ControlPlane Marks
new_control_plane =
    let cp = control_plane "" "" "" in record cp { meta = record cp.meta { finalizers = [] } }

abbrev on_new : State ℕ (Call Marks) (ControlPlane Marks)
on_new = record { world = 0; obj = new_control_plane; trace = [] }

finalizer-first_example :
    Upto step_rank
      (Call.patch_control_plane
          (with_finalizers (managed_control_plane_finalizer ∷ []) new_control_plane)
        ∷ [])
      8
      (reconcile_external env cluster on_new).1
finalizer-first_example = finalizer-first env cluster on_new refl

-- A manager whose fifth call fails, the second watch of the control planes.
abbrev mgr : Manager ℕ
mgr = record {
  run = λ c w. if eqb w 4 then refuse (other "no kind CCEManagedCluster") w else answer tt w;
}

abbrev before_start : State ℕ Setup (Unit {0})
before_start = record { world = 0; obj = tt; trace = [] }

main-planned_example :
    unnamed (main mgr init_flags before_start)
    ≡ unnamed (run_plan mgr (plan init_flags) before_start)
main-planned_example = main-planned mgr init_flags before_start
