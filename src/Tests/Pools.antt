-- ===== src/Tests/Pools.antt =====
-- The theorem on the whole deletion of a machine pool, at concrete inputs.
use cluster_api_provider_cce.Prelude.{
  ℕ, String, ◌≡◌, refl, true, none, some, List, [], ◌∷◌, ltb, if◌then◌else◌, arith,
}
use cluster_api_provider_cce.Errors.{service_response, ok}
use cluster_api_provider_cce.Go.{State, ret}
use cluster_api_provider_cce.Call.{Call}
use cluster_api_provider_cce.Env.{Env}
use cluster_api_provider_cce.Sdk.{CceClient, NodePoolStatus}
use cluster_api_provider_cce.Api.Meta.{NamespacedName, Cluster, OwnerReference}
use cluster_api_provider_cce.Api.ControlPlane.{ControlPlane}
use cluster_api_provider_cce.Api.MachinePool.{
  ManagedMachinePool, managed_machine_pool_finalizer, infra_machine_pool_id,
  infra_machine_pool_id_label,
}
use cluster_api_provider_cce.Cluster.Show.{is_404}
use cluster_api_provider_cce.Nodepool.Delete.Progress.{Leaves, gone, deleting, response_of}
use cluster_api_provider_cce.Controller.Requests.{done, find_owner}
use cluster_api_provider_cce.Controller.MachinePool.{reconcile}
use cluster_api_provider_cce.Controller.MachinePool.Deletion.{freed}
use cluster_api_provider_cce.Controller.MachinePool.Progress.{Cooperates}
use cluster_api_provider_cce.Controller.MachinePool.Whole.{Reaches, pool-deletion-persisted}
use cluster_api_provider_cce.Tests.World.{Marks}
use cluster_api_provider_cce.Tests.Cloud.{env, kube, cce, answer, refuse}
use cluster_api_provider_cce.Tests.Objects.{cluster, control_plane, machine_pool, pool}

abbrev owner : OwnerReference
owner = record { api_version = "cluster.x-k8s.io/v1beta1"; kind = "MachinePool"; name = "demo" }

abbrev pub deleted : ManagedMachinePool Marks
deleted = record pool {
  meta = record pool.meta {
    labels = some ((infra_machine_pool_id_label, "pool-1") ∷ []);
    finalizers = managed_machine_pool_finalizer ∷ [];
    deleted = true;
    owner_references = owner ∷ [];
  };
}

abbrev ready_control_plane : ControlPlane Marks
ready_control_plane =
    let cp = control_plane "cce-1" "vpc-1" "subnet-1" in
    record cp { status = record cp.status { ready = true } }

abbrev pub owned_cluster : Cluster
owned_cluster = record cluster {
  control_plane_ref =
      some (record { kind = "CCEManagedControlPlane"; namespace = "default"; name = "demo" });
}

abbrev in_deletion : NodePoolStatus
in_deletion = record { phase = some "Deleting"; current_node = none }

-- A node pool that is shown in deletion up to the eleventh call, and is then gone.
abbrev slow_cce : CceClient ℕ
slow_cce = record cce {
  show_node_pool = λ id pool w.
      if ltb w 11
      then answer (response_of "NodePool" "v3" none (some in_deletion)) w
      else refuse (service_response 404 "CCE.01404001") w;
}

abbrev pool_env : Env ℕ Marks
pool_env = record env {
  kube = record kube {
    get_managed_machine_pool = λ key. answer deleted;
    get_machine_pool = λ key. answer machine_pool;
    get_cluster_from_metadata = λ meta. answer owned_cluster;
    get_control_plane = λ key. answer ready_control_plane;
  };
  new_cce_client = λ region ak sk w. (some slow_cce, w);
}

owner_found :
    find_owner pool_env.kube.parse_group_version "MachinePool" deleted.meta.owner_references
    ≡ ok (some owner)
unfolding find_owner
owner_found = refl

abbrev reaches : Reaches pool_env deleted 1 6
reaches = record {
  owned = 2;
  clustered = 3;
  controlled = 4;
  helped = 5;
  owner = owner;
  machine_pool = machine_pool;
  cluster = owned_cluster;
  ref = record { kind = "CCEManagedControlPlane"; namespace = "default"; name = "demo" };
  control_plane = ready_control_plane;
  has_owner = owner_found;
  gets_owner = refl;
  gets_cluster = refl;
  unpaused = refl;
  has_ref = refl;
  gets_control_plane = refl;
  is_ready = refl;
  helps = refl;
  helps_owner = refl;
}

abbrev secret : List (String × String)
secret = ("accessKey", "ak") ∷ (("secretKey", "sk") ∷ [])

leaves : Leaves pool_env ready_control_plane slow_cce (infra_machine_pool_id deleted) 1 10
unfolding is_404
leaves = deleting refl refl (gone refl refl)

cooperates : Cooperates pool_env ready_control_plane deleted 6
cooperates = record {
  authorised = 7;
  connected = 7;
  cce = slow_cce;
  makes_cce = refl;
  found = 8;
  accepted = 10;
  ref = record { kind = "Secret"; namespace = "default"; name = "credentials" };
  sec = secret;
  kind = "NodePool";
  version = "v3";
  uid = none;
  status = some in_deletion;
  polls = 1;
  has_ref = refl;
  has_secret = refl;
  shows = refl;
  accepts = refl;
  leaves = leaves;
  in_time = omega arith;
}

abbrev request : NamespacedName
request = record { namespace = "default"; name = "demo" }

abbrev at_start : State ℕ (Call Marks) (Unit {0})
at_start = record { world = 0; obj = tt; trace = [] }

pool-deletion-persisted_example :
    ((reconcile pool_env request at_start).0 ≡ ret done)
    × ((t : List (Call Marks)) × (o : ManagedMachinePool Marks) × ((reconcile pool_env request
            at_start).1.trace
          ≡ Call.patch_machine_pool o ∷ t)
        × (o.meta.finalizers ≡ freed pool_env deleted))
pool-deletion-persisted_example =
    pool-deletion-persisted pool_env (λ pool w. refl) request at_start deleted 1 6 reaches refl refl
      cooperates
