-- ===== src/Tests/Laws.antt =====
-- The theorems on single operations at concrete inputs.
use cluster_api_provider_cce.Prelude.{ℕ, ◌≡◌, refl, true, false, none, some, List, [], ◌∷◌, lookup}
use cluster_api_provider_cce.Errors.{service_response, wrapped, ok}
use cluster_api_provider_cce.Go.{State, ret, fail, ◌>>=◌, catch}
use cluster_api_provider_cce.Go.Returns.{Returns}
use cluster_api_provider_cce.Call.{Call}
use cluster_api_provider_cce.Api.ControlPlane.{
  ControlPlane, infra_cluster_id, label_or_empty, control_plane_creating,
}
use cluster_api_provider_cce.Eip.{has_public_endpoint, publicip_request, with_eip_id, reconcile_eip}
use cluster_api_provider_cce.Eip.Laws.{shown, eip-leak}
use cluster_api_provider_cce.Cluster.Create.{create_cluster}
use cluster_api_provider_cce.Cluster.Create.Laws.{create-id}
use cluster_api_provider_cce.Nodepool.Status.Laws.{FullNode}
use cluster_api_provider_cce.Controller.Requests.{done}
use cluster_api_provider_cce.Controller.ControlPlane.{run_scoped, reconcile_delete}
use cluster_api_provider_cce.Controller.ControlPlane.Closing.{run_scoped-persists}
use cluster_api_provider_cce.Controller.ControlPlane.Deletion.{Deleted, reconcile_delete-Deleted}
use cluster_api_provider_cce.Controller.ManagedCluster.{update_from, with_control_plane}
use cluster_api_provider_cce.Controller.ManagedCluster.Laws.{update-persists}
use cluster_api_provider_cce.Go.Within.{Within}
use cluster_api_provider_cce.Kubeconfig.{with_initialized, reconcile_kubeconfig}
use cluster_api_provider_cce.Kubeconfig.Frame.{kubeconfig-Returns}
use cluster_api_provider_cce.Nodepool.Delete.{reconcile_pool_delete}
use cluster_api_provider_cce.Nodepool.Delete.Safety.{
  but_conditions, DeletesPool, pool_delete-Within,
}
use cluster_api_provider_cce.Tests.World.{Marks}
use cluster_api_provider_cce.Tests.Cloud.{env, svc, created}
use cluster_api_provider_cce.Tests.Objects.{
  cluster, network, on_control_plane, on_pool, on_managed_cluster,
}

abbrev on_public : State ℕ (Call Marks) (ControlPlane Marks)
on_public = on_control_plane "public" "vpc-1" "subnet-1"

abbrev on_private : State ℕ (Call Marks) (ControlPlane Marks)
on_private = on_control_plane "private" "vpc-1" "subnet-1"

private_shown : shown env svc on_private ≡ (ok (some none), 1)
unfolding infra_cluster_id label_or_empty lookup
private_shown = refl

private_has : has_public_endpoint none ≡ false
unfolding has_public_endpoint
private_has = refl

eip-leak_example : reconcile_eip env svc on_private ≡ (
  fail (wrapped "failed to bind EIP" (service_response 409 "CCE.01409001")),
  record {
    world = 3;
    obj = with_eip_id "eip-1" on_private.obj;
    trace =
        Call.update_cluster_eip (infra_cluster_id on_private.obj) "bind" (some "eip-1")
        ∷ (Call.create_publicip (publicip_request env svc on_private.obj)
            ∷ (Call.show_cluster_endpoints (infra_cluster_id on_private.obj) ∷ []));
  },
)
eip-leak_example =
    eip-leak env svc on_private none "eip-1" 1 2 3 (service_response 409 "CCE.01409001")
      private_shown private_has refl refl

create-id_example :
    ((create_cluster env svc cluster on_private).0 ≡ ret created)
    × ((infra_cluster_id (create_cluster env svc cluster on_private).1.obj ≡ "cce-1")
        × (env.conditions.is_true control_plane_creating
              (create_cluster env svc cluster on_private).1.obj.status.conditions
            ≡ true))
create-id_example = create-id env svc cluster on_private network "cce-1" created refl refl refl

abbrev nodes : List FullNode
nodes =
    record { annotations = ("kubernetes.io/node-pool.id", "pool-1") ∷ []; uid = "n1"; az = "az1" }
    ∷ (record { annotations = []; uid = "n2"; az = "az1" } ∷ [])

run_scoped-persists_example :
    (t : List (Call Marks)) × ((run_scoped env 10 cluster on_private).1.trace
      ≡ Call.patch_control_plane (run_scoped env 10 cluster on_private).1.obj ∷ t)
run_scoped-persists_example = run_scoped-persists env 10 cluster on_private refl

reconcile_delete-Deleted_example :
    Returns
      (Deleted env on_private.obj)
      (λ o. o ≡ on_private.obj)
      (reconcile_delete env cluster on_private)
reconcile_delete-Deleted_example = reconcile_delete-Deleted env cluster on_private

update_returns : (update_from env on_private.obj on_managed_cluster).0 ≡ ret done
unfolding update_from with_control_plane ◌>>=◌ catch
update_returns = refl

update-persists_example :
    (update_from env on_private.obj on_managed_cluster).1.trace
    ≡ Call.patch_managed_cluster (record on_managed_cluster.obj {
      ready = true;
      control_plane_endpoint = on_private.obj.spec.control_plane_endpoint;
    })
      ∷ (Call.read "patch helper" ∷ [])
update-persists_example = update-persists env on_private.obj on_managed_cluster update_returns

kubeconfig-Returns_example :
    Returns
      (λ (u : Unit {0}) o. o ≡ with_initialized on_private.obj)
      (λ o. o ≡ on_private.obj)
      (reconcile_kubeconfig env cluster svc on_private)
kubeconfig-Returns_example = kubeconfig-Returns env cluster svc on_private

pool_delete-Within_example :
    Within
      (λ o. but_conditions on_pool.obj o ≡ on_pool.obj)
      (DeletesPool (infra_cluster_id on_private.obj) on_pool.obj)
      []
      (reconcile_pool_delete env on_private.obj svc.cce on_pool).1
pool_delete-Within_example = pool_delete-Within env on_private.obj svc.cce on_pool
