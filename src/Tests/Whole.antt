-- ===== src/Tests/Whole.antt =====
-- The theorems on whole reconciliations of control planes, and on nil endpoints, at concrete inputs.
use cluster_api_provider_cce.Prelude.{
  ℕ, String, ◌≡◌, refl, true, false, none, some, List, [], ◌∷◌, ltb, lookup, ◌==◌, if◌then◌else◌,
  arith,
}
use cluster_api_provider_cce.Errors.{service_response}
use cluster_api_provider_cce.Go.{State, ret, panic}
use cluster_api_provider_cce.Call.{Call}
use cluster_api_provider_cce.Env.{Env}
use cluster_api_provider_cce.Sdk.{CceClient}
use cluster_api_provider_cce.Api.Meta.{NamespacedName}
use cluster_api_provider_cce.Api.ControlPlane.{ControlPlane, infra_cluster_id, label_or_empty}
use cluster_api_provider_cce.Service.{Service}
use cluster_api_provider_cce.Cluster.Show.{is_404}
use cluster_api_provider_cce.Cluster.Delete.Progress.{Leaves, gone, deleting}
use cluster_api_provider_cce.Cluster.Reconcile.{reconcile_control_plane}
use cluster_api_provider_cce.Cluster.Reconcile.Nil.{available-panics}
use cluster_api_provider_cce.Controller.Requests.{done}
use cluster_api_provider_cce.Controller.ControlPlane.{reconcile}
use cluster_api_provider_cce.Controller.ControlPlane.Deletion.{released}
use cluster_api_provider_cce.Controller.ControlPlane.Progress.{Cooperates}
use cluster_api_provider_cce.Controller.ControlPlane.{run_scoped}
use cluster_api_provider_cce.Controller.ControlPlane.Lifecycle.{
  Held, Becomes, unchanged, edited, reconciled, finalizer-lasts,
}
use cluster_api_provider_cce.Controller.ControlPlane.Whole.{
  read_both, reconcile-idle, deletion-persisted,
}
use cluster_api_provider_cce.Tests.World.{Marks}
use cluster_api_provider_cce.Tests.Cloud.{env, kube, svc, cce, answer, refuse, phase_status}
use cluster_api_provider_cce.Tests.Objects.{cluster, control_plane, on_control_plane}

abbrev deleted : ControlPlane Marks
deleted =
    let cp = control_plane "cce-1" "vpc-1" "subnet-1" in
    record cp { meta = record cp.meta { deleted = true } }

abbrev request : NamespacedName
request = record { namespace = "default"; name = "demo" }

abbrev at_start : State ℕ (Call Marks) (Unit {0})
at_start = record { world = 0; obj = tt; trace = [] }

abbrev ownerless_env : Env ℕ Marks
ownerless_env = record env { kube = record kube { get_control_plane = λ key. answer deleted } }

reconcile-idle_example :
    reconcile ownerless_env 60 request at_start ≡ (ret done, read_both ownerless_env 2 at_start)
reconcile-idle_example =
    reconcile-idle ownerless_env 60 request at_start deleted 1 2 refl none refl refl

-- A cluster that is in deletion up to the eighth call, and then gone.
abbrev slow_cce : CceClient ℕ
slow_cce = record cce {
  show_cluster = λ id w.
      if ltb w 8
      then answer (record { status = some (phase_status "Deleting") }) w
      else refuse (service_response 404 "CCE.01404001") w;
}

abbrev slow_svc : Service ℕ
slow_svc = record svc { cce = slow_cce }

abbrev owned_env : Env ℕ Marks
owned_env = record env {
  kube = record kube {
    get_control_plane = λ key. answer deleted;
    get_owner_cluster = λ meta. answer (some cluster);
  };
  new_cce_client = λ region ak sk w. (some slow_cce, w);
}

deleted_id : infra_cluster_id deleted ≡ "cce-1"
unfolding infra_cluster_id label_or_empty lookup
deleted_id = refl

abbrev secret : List (String × String)
secret = ("accessKey", "ak") ∷ (("secretKey", "sk") ∷ [])

leaves : Leaves owned_env cluster slow_svc (infra_cluster_id deleted) 1 7
unfolding is_404
leaves = deleting refl refl (gone refl refl)

cooperates : Cooperates owned_env cluster deleted 3
cooperates = record {
  listed = 4;
  authorised = 5;
  with_cce = 5;
  with_eip = 5;
  connected = 5;
  svc = slow_svc;
  makes_cce = refl;
  makes_eip = refl;
  makes_vpc = refl;
  found = 6;
  accepted = 7;
  ref = record { kind = "Secret"; namespace = "default"; name = "credentials" };
  sec = secret;
  response = record { status = some (phase_status "Deleting") };
  polls = 1;
  no_pools = refl;
  has_ref = refl;
  has_secret = refl;
  has_label = rw deleted_id refl;
  shows = refl;
  accepts = refl;
  leaves = leaves;
  in_time = omega arith;
}

deletion-persisted_example :
    ((reconcile owned_env 60 request at_start).0 ≡ ret done)
    × ((t : List (Call Marks)) × ((reconcile owned_env 60 request at_start).1.trace
          ≡ Call.patch_control_plane (released owned_env deleted) ∷ t))
deletion-persisted_example =
    deletion-persisted owned_env 60 request at_start deleted 1 2 refl cluster 3 refl refl refl refl
      cooperates (λ v. refl)

-- An available cluster without endpoints.
abbrev bare_svc : Service ℕ
bare_svc = record svc {
  cce = record cce {
    show_cluster = λ id. answer (record { status = some (phase_status "Available") });
  };
}

abbrev on_known : State ℕ (Call Marks) (ControlPlane Marks)
on_known = on_control_plane "cce-1" "vpc-1" "subnet-1"

known_shown : (infra_cluster_id on_known.obj == "") ≡ false
unfolding infra_cluster_id label_or_empty lookup
known_shown = refl

available-panics_example :
    ((reconcile_control_plane env cluster bare_svc on_known).0 ≡ panic)
    × ((reconcile_control_plane env cluster bare_svc on_known).1.obj.status.ready ≡ true)
available-panics_example =
    available-panics env cluster bare_svc (λ cp w. refl) (phase_status "Available") 1 on_known
      known_shown refl refl refl

-- The control plane, edited and then reconciled.
edited_once : Becomes env on_known.obj on_known.obj
edited_once = edited unchanged refl

then_reconciled : Becomes env on_known.obj (run_scoped env 60 cluster on_known).1.obj
then_reconciled = reconciled cluster 60 on_known edited_once (λ c. cc)

finalizer-lasts_example : Held env (run_scoped env 60 cluster on_known).1.obj
finalizer-lasts_example =
    finalizer-lasts env on_known.obj (run_scoped env 60 cluster on_known).1.obj refl then_reconciled
