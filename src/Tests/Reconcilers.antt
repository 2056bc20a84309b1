-- ===== src/Tests/Reconcilers.antt =====
-- The theorems on whole reconciliations at concrete inputs.
use cluster_api_provider_cce.Prelude.{◌≡◌}
use cluster_api_provider_cce.Go.Returns.{Returns}
use cluster_api_provider_cce.Cluster.Reconcile.{reconcile_control_plane}
use cluster_api_provider_cce.Cluster.Reconcile.Condition.{Reported, control_plane-Reported}
use cluster_api_provider_cce.Nodepool.Reconcile.{reconcile_pool}
use cluster_api_provider_cce.Nodepool.Reconcile.Condition.{PoolReported, pool-Reported}
use cluster_api_provider_cce.Controller.Requests.{done}
use cluster_api_provider_cce.Controller.ControlPlane.{reconcile_external}
use cluster_api_provider_cce.Controller.ControlPlane.Finalizer.{guarded, reconcile_external-guarded}
use cluster_api_provider_cce.Controller.MachinePool.{reconcile_delete}
use cluster_api_provider_cce.Controller.MachinePool.Deletion.{freed, pool-reconcile_delete-Returns}
use cluster_api_provider_cce.Tests.Cloud.{env, svc}
use cluster_api_provider_cce.Tests.Objects.{cluster, control_plane, on_control_plane, on_pool}

control_plane-Reported_example :
    Reported env (reconcile_control_plane env cluster svc (on_control_plane "" "vpc-1" "subnet-1"))
control_plane-Reported_example =
    control_plane-Reported env cluster svc (on_control_plane "" "vpc-1" "subnet-1")

pool-Reported_example :
    PoolReported env (reconcile_pool env (control_plane "cce-1" "" "") svc.cce on_pool)
pool-Reported_example = pool-Reported env (control_plane "cce-1" "" "") svc.cce on_pool

reconcile_external-guarded_example :
    (reconcile_external env cluster (on_control_plane "" "" "")).1.obj.meta.finalizers
    ≡ guarded env (control_plane "" "" "")
reconcile_external-guarded_example =
    reconcile_external-guarded env cluster (on_control_plane "" "" "")

pool-reconcile_delete-Returns_example :
    Returns
      (λ r o. (r ≡ done) × (o.meta.finalizers ≡ freed env on_pool.obj))
      (λ o. o.meta.finalizers ≡ on_pool.obj.meta.finalizers)
      (reconcile_delete env (control_plane "cce-1" "" "") on_pool)
pool-reconcile_delete-Returns_example =
    pool-reconcile_delete-Returns env (control_plane "cce-1" "" "") on_pool
