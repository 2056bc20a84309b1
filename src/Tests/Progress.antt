-- ===== src/Tests/Progress.antt =====
-- The theorems on whole deletions, on node pools and on the maps of watches, at concrete inputs.
use cluster_api_provider_cce.Prelude.{keep, ℕ, String, ◌≡◌, refl, some, List, [], ◌∷◌, map}
use cluster_api_provider_cce.Errors.{ok}
use cluster_api_provider_cce.Go.{State, ret, defer_with}
use cluster_api_provider_cce.Call.{Call}
use cluster_api_provider_cce.Env.{Env}
use cluster_api_provider_cce.Sdk.{NodePool, NodePoolStatus}
use cluster_api_provider_cce.Api.Meta.{OwnerReference}
use cluster_api_provider_cce.Api.ControlPlane.{ControlPlane}
use cluster_api_provider_cce.Cluster.Request.{cluster_request, pod_blocks}
use cluster_api_provider_cce.Cluster.Request.Laws.{ModeFits, CidrsFit, cluster_request-fits}
use cluster_api_provider_cce.Nodepool.Delete.{request_deletion, report_deletion}
use cluster_api_provider_cce.Nodepool.Delete.Report.{reported, deletion-reported}
use cluster_api_provider_cce.Nodepool.Status.{is_positive, set_status}
use cluster_api_provider_cce.Nodepool.Status.Laws.{FullNode}
use cluster_api_provider_cce.Nodepool.Status.Nodes.{settled, set_status-stale}
use cluster_api_provider_cce.Logger.{Logr, Logger}
use cluster_api_provider_cce.Controller.Requests.{GroupKind, Watched, find_owner}
use cluster_api_provider_cce.Controller.Maps.{control_plane_to_machine_pools}
use cluster_api_provider_cce.Controller.Maps.Laws.{
  is_of_kind, infrastructure, machine_pools-keep, handle_all, grown, handle_all-grown,
}
use cluster_api_provider_cce.Tests.World.{Marks}
use cluster_api_provider_cce.Tests.Cloud.{env, kube, cce, answer}
use cluster_api_provider_cce.Tests.Objects.{network, on_control_plane, machine_pool, pool, on_pool}

abbrev on_known : State ℕ (Call Marks) (ControlPlane Marks)
on_known = on_control_plane "cce-1" "vpc-1" "subnet-1"

-- A control plane that asks for the mode "eni".
abbrev on_eni : ControlPlane Marks
on_eni = record on_known.obj {
  spec = record on_known.obj.spec {
    network = record on_known.obj.spec.network { mode = some "eni" };
  };
}

cluster_request-fits_example :
    ModeFits (some "eni") (cluster_request env network on_eni)
    × CidrsFit (pod_blocks network.pods) (cluster_request env network on_eni).cidrs
cluster_request-fits_example = cluster_request-fits env network on_eni (refl, refl)

abbrev status_of : ℕ → NodePoolStatus
status_of n = record { phase = some ""; current_node = some n }

abbrev node_pool : ℕ → NodePool
node_pool n = record {
  kind = "NodePool";
  api_version = "v3";
  metadata_uid = some (some "pool-1");
  status = some (status_of n);
}

set_status-stale_example :
    (set_status env on_known.obj cce (node_pool 0) on_pool).1.obj
    ≡ settled env on_known.obj cce on_pool
unfolding is_positive
set_status-stale_example =
    set_status-stale env on_known.obj cce on_pool (node_pool 0) (status_of 0)
      (refl, (refl, (refl, (refl, refl)))) refl refl refl

abbrev pool_nodes : List FullNode
pool_nodes =
    record { annotations = ("kubernetes.io/node-pool.id", "pool-1") ∷ []; uid = "n1"; az = "az1" }
    ∷ (record { annotations = []; uid = "n2"; az = "az1" } ∷ [])

deletion-reported_example :
    let (r, t) = request_deletion env on_known.obj cce "demo" on_pool in
    let out =
      defer_with
        (request_deletion env on_known.obj cce "demo")
        (report_deletion env on_known.obj cce)
        on_pool in
    (out.1.obj ≡ reported env on_known.obj cce r t.obj)
    × (out.1.trace ≡ Call.patch_machine_pool (reported env on_known.obj cce r t.obj) ∷ t.trace)
deletion-reported_example = deletion-reported env on_known.obj cce "demo" on_pool

abbrev of_cluster : ControlPlane Marks
of_cluster =
    let cp = on_known.obj in
    record cp {
      meta = record cp.meta {
        owner_references =
            record { api_version = "cluster.x-k8s.io/v1beta1"; kind = "Cluster"; name = "demo" }
            ∷ [];
      };
    }

abbrev owning : OwnerReference
owning = record { api_version = "cluster.x-k8s.io/v1beta1"; kind = "Cluster"; name = "demo" }

owning_found :
    find_owner env.kube.parse_group_version "Cluster" of_cluster.meta.owner_references
    ≡ ok (some owning)
unfolding find_owner
owning_found = refl

abbrev pool_kind : GroupKind
pool_kind = record { group = "infrastructure.cluster.x-k8s.io"; kind = "CCEManagedMachinePool" }

abbrev pools_env : Env ℕ Marks
pools_env = record env {
  kube = record kube { list_machine_pools = λ namespace name. answer (machine_pool ∷ []) };
}

machine_pools-keep_example :
    control_plane_to_machine_pools pools_env pool_kind (Watched.control_plane of_cluster) on_pool
    ≡ (
      ret (map infrastructure (keep (is_of_kind pool_kind) (machine_pool ∷ []))),
      record { world = 1; obj = pool; trace = Call.read "MachinePoolList" ∷ [] },
    )
machine_pools-keep_example =
    machine_pools-keep pools_env pool_kind of_cluster owning (machine_pool ∷ []) 1 on_pool refl
      owning_found refl

-- A logger as the values that it was given, the newest first.
abbrev logr : Logr (List (List (String × String)))
logr = record {
  with_values = λ pairs l. pairs ∷ l;
  with_name = λ name l. l;
  at_level = λ level l. l;
  k_ref = λ namespace name. name;
}

abbrev on_logger : State ℕ (Call Marks) (Logger (List (List (String × String))))
on_logger = record { world = 0; obj = record { logger = [] }; trace = [] }

handle_all-grown_example :
    (handle_all env logr (on_known.obj ∷ (of_cluster ∷ [])) on_logger).obj.logger
    ≡ grown env logr (on_known.obj ∷ (of_cluster ∷ [])) []
handle_all-grown_example = handle_all-grown env logr (on_known.obj ∷ (of_cluster ∷ [])) on_logger
