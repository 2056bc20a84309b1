-- ===== src/Controller/Requests.antt =====
-- What the reconcilers return, and how they find owners and requests in the objects alone:
-- internal/controller/ccemanagedmachinepool_controller.go, ccemanagedcontrolplane_controller.go and
-- ccemanagedcluster_controller.go.
pub mod Owners
use cluster_api_provider_cce.Prelude.{
  if◌then◌else◌, ℕ, String, Bool, true, false, not, ◌&&◌, Option, none, some, List, [], ◌∷◌, ◌++◌,
  ◌==◌,
}
use cluster_api_provider_cce.Errors.{Result, ok, err}
use cluster_api_provider_cce.Go.{Outcome, ret, panic}
use cluster_api_provider_cce.Api.Meta.{
  OwnerReference, ObjectReference, ObjectMeta, NamespacedName, MachinePool,
}
use cluster_api_provider_cce.Api.ControlPlane.{ControlPlane}
use cluster_api_provider_cce.Api.ManagedCluster.{ManagedCluster}

-- ctrl.Result; `requeue_after` in seconds
pub record CtrlResult : Type 0 where
  pub requeue : Bool
  pub requeue_after : ℕ

abbrev pub done : CtrlResult
done = record { requeue = false; requeue_after = 0 }

abbrev pub requeue : CtrlResult
requeue = record { requeue = true; requeue_after = 0 }

-- clusterv1.GroupVersion.Group, which is expclusterv1's too
abbrev pub capi_group : String
capi_group = "cluster.x-k8s.io"

-- An object that a watch hands over, of whatever type.
pub data Watched (C : Type 0) : Type 0 where
  control_plane : ControlPlane C → Watched C
  managed_cluster : ManagedCluster → Watched C
  machine_pool : MachinePool → Watched C
  another : Watched C

pub record GroupKind : Type 0 where
  pub group : String
  pub kind : String

-- The first owner of the kind whose group is the Cluster API's; a version that does not parse ends
-- the search with an error.
unfoldable pub find_owner :
    (String → Result String) → String → List OwnerReference → Result (Option OwnerReference)
find_owner parse kind [] = ok none
find_owner parse kind (ref ∷ refs) =
    let rest = find_owner parse kind refs in
    if not (ref.kind == kind) then rest else (elim (parse ref.api_version) [
      | err e ↦ err e
      | ok group ↦ if group == capi_group then ok (some ref) else rest
    ])

abbrev pub owner_key : String → Result (Option OwnerReference) → Result (Option NamespacedName)
owner_key namespace (err e) = err e
owner_key namespace (ok none) = ok none
owner_key namespace (ok (some ref)) = ok (some (record { namespace = namespace; name = ref.name }))

-- GetOwnerClusterKey
unfoldable pub get_owner_cluster_key :
    (String → Result String) → ObjectMeta → Result (Option NamespacedName)
get_owner_cluster_key parse obj =
    owner_key obj.namespace (find_owner parse "Cluster" obj.owner_references)

-- machinePoolToInfrastructureMapFunc, for a machine pool
unfoldable pub infrastructure_requests : GroupKind → MachinePool → List NamespacedName
infrastructure_requests gk m =
    if gk.group == m.infrastructure_group && gk.kind == m.infrastructure_kind
    then record { namespace = m.meta.namespace; name = m.infrastructure_name } ∷ []
    else []

-- The type assertion is logged where it fails, and the nil pointer is used all the same.
unfoldable pub machine_pool_to_infrastructure :
    {C : Type 0} → GroupKind → Watched C → Outcome (List NamespacedName)
machine_pool_to_infrastructure gk (Watched.machine_pool m) = ret (infrastructure_requests gk m)
machine_pool_to_infrastructure gk _ = panic

-- The loop over the machine pools of the cluster.
unfoldable pub all_requests : GroupKind → List MachinePool → List NamespacedName
all_requests gk [] = []
all_requests gk (m ∷ ms) = infrastructure_requests gk m ++ all_requests gk ms

-- `ref` where it names the kind that is looked for.
unfoldable pub ref_requests : String → Option ObjectReference → List NamespacedName
ref_requests kind none = []
ref_requests kind (some ref) =
    if ref.kind == kind then record { namespace = ref.namespace; name = ref.name } ∷ [] else []
