-- ===== src/Tests/Failures.antt =====
-- The theorems on failures, and on the finalizer of machine pools, at concrete inputs.
use cluster_api_provider_cce.Prelude.{ℕ, ◌≡◌, refl, some, [], ◌∷◌, lookup}
use cluster_api_provider_cce.Errors.{Error, err, other, wrapped}
use cluster_api_provider_cce.Go.{State, ret, fail, wrap, catch, ◌>>=◌}
use cluster_api_provider_cce.Call.{Call}
use cluster_api_provider_cce.Service.{Service}
use cluster_api_provider_cce.Api.ControlPlane.{ControlPlane, infra_cluster_id, label_or_empty}
use cluster_api_provider_cce.Api.MachinePool.{ManagedMachinePool, managed_machine_pool_finalizer}
use cluster_api_provider_cce.Cluster.Delete.{delete_control_plane}
use cluster_api_provider_cce.Cluster.Delete.Early.{delete-early}
use cluster_api_provider_cce.Kubeconfig.{
  create_capi_kubeconfig_secret, create_base_kubeconfig, generate_client_data, reconcile_kubeconfig,
}
use cluster_api_provider_cce.Kubeconfig.Errors.{secret_of, looked, kubeconfig-masks}
use cluster_api_provider_cce.Controller.MachinePool.{run_scoped}
use cluster_api_provider_cce.Controller.MachinePool.Lifecycle.{
  Held, Becomes, unchanged, reconciled, pool-finalizer-lasts,
}
use cluster_api_provider_cce.Scope.ControlPlane.{scope_infra_cluster_id}
use cluster_api_provider_cce.Tests.World.{Marks}
use cluster_api_provider_cce.Tests.Cloud.{env, svc, cce, answer, refuse, phase_status}
use cluster_api_provider_cce.Tests.Objects.{cluster, on_control_plane, machine_pool, pool}

abbrev on_known : State ℕ (Call Marks) (ControlPlane Marks)
on_known = on_control_plane "cce-1" "vpc-1" "subnet-1"

known : infra_cluster_id on_known.obj ≡ "cce-1"
unfolding infra_cluster_id label_or_empty lookup
known = refl

-- The cluster stays available whatever is asked.
abbrev lazy_svc : Service ℕ
lazy_svc = record svc {
  cce = record cce {
    show_cluster = λ id. answer (record { status = some (phase_status "Available") });
    create_cert = λ id days. refuse (other "quota");
  };
}

delete-early_example : delete_control_plane env cluster lazy_svc on_known ≡ (
  ret tt,
  record on_known {
    world = 3;
    trace =
        Call.show_cluster (infra_cluster_id on_known.obj)
        ∷ (Call.delete_cluster (infra_cluster_id on_known.obj)
            ∷ (Call.show_cluster (infra_cluster_id on_known.obj) ∷ []));
  },
)
delete-early_example =
    delete-early env cluster lazy_svc (phase_status "Available") "Available" refl refl on_known
      (record { status = some (phase_status "Available") }) 1 2 3 (rw known refl) refl refl refl

abbrev no_cert : Error
no_cert =
    wrapped "creating base kubeconfig" (wrapped "failed to create CCE cluster cert" (other "quota"))

cannot_create :
    (create_capi_kubeconfig_secret env lazy_svc
      (secret_of cluster)
      (looked env cluster lazy_svc on_known)).0
    ≡ fail no_cert
unfolding create_capi_kubeconfig_secret create_base_kubeconfig generate_client_data wrap catch ◌>>=◌
    scope_infra_cluster_id
cannot_create = refl

kubeconfig-masks_example :
    (reconcile_kubeconfig env cluster lazy_svc on_known).0
    ≡ fail (wrapped "creating kubeconfig secret" (other "not found"))
kubeconfig-masks_example =
    kubeconfig-masks env cluster lazy_svc on_known no_cert (err (other "not found")) refl
      (refl, cannot_create)

abbrev held_pool : ManagedMachinePool Marks
held_pool = record pool {
  meta = record pool.meta { finalizers = managed_machine_pool_finalizer ∷ [] };
}

abbrev on_held : State ℕ (Call Marks) (ManagedMachinePool Marks)
on_held = record { world = 0; obj = held_pool; trace = [] }

pool_reconciled : Becomes env held_pool (run_scoped env on_known.obj machine_pool on_held).1.obj
pool_reconciled = reconciled on_known.obj machine_pool on_held unchanged (λ c. cc)

pool-finalizer-lasts_example : Held env (run_scoped env on_known.obj machine_pool on_held).1.obj
pool-finalizer-lasts_example =
    pool-finalizer-lasts env held_pool (run_scoped env on_known.obj machine_pool on_held).1.obj refl
      pool_reconciled
