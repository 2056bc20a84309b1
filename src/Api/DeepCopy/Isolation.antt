-- ===== src/Api/DeepCopy/Isolation.antt =====
-- The deep copies of all the types of the API, in zz_generated.deepcopy.go, as one family.
use cluster_api_provider_cce.Prelude.{ℕ, ◌≡◌, refl, Option, List, length}
use cluster_api_provider_cce.Memory.{Pointer, Mem}
use cluster_api_provider_cce.Memory.Copies.{Copied, plain}
use cluster_api_provider_cce.Memory.Copies.Pointers.{pointer}
use cluster_api_provider_cce.Memory.Isolation.{stores, Below, From, copy-Isolates}
use cluster_api_provider_cce.Api.Memory.{
  Layouts, Vpc, Subnet, Eip, Volume, NetworkStatus, ClusterSpec, NetworkSpec, EndpointAccess, Taint,
  ControlPlaneSpec, MachinePoolSpec, ClusterStatus, ManagedCluster, ManagedClusterList,
  ControlPlaneStatus, ManagedControlPlane, ManagedControlPlaneList, MachinePoolStatus,
  ManagedMachinePool, ManagedMachinePoolList,
}
use cluster_api_provider_cce.Api.Memory.Cells.{Cell}
use cluster_api_provider_cce.Api.Memory.Kinds.{
  vpc_kind, subnet_kind, eip_kind, volume_kind, network_status_kind, cluster_spec_kind,
  network_spec_kind, endpoint_access_kind, taint_kind, control_plane_spec_kind,
  machine_pool_spec_kind, cluster_status_kind, cluster_kind, cluster_list_kind,
  control_plane_status_kind, control_plane_kind, control_plane_list_kind, machine_pool_status_kind,
  machine_pool_kind, machine_pool_list_kind,
}
use cluster_api_provider_cce.Api.DeepCopy.{Library}
use cluster_api_provider_cce.Api.DeepCopy.Structs.{
  copy_vpc, copy_vpc_into, copy_subnet, copy_subnet_into, copy_eip, copy_eip_into, copy_volume,
  copy_volume_into, copy_network_status, copy_network_status_into, copy_network_spec,
  copy_endpoint_access, copy_taint,
}
use cluster_api_provider_cce.Api.DeepCopy.ManagedCluster.{
  copy_cluster_spec, copy_cluster_status, copy_cluster, copy_cluster_list, copy_cluster_spec_into,
}
use cluster_api_provider_cce.Api.DeepCopy.Views.ManagedCluster.{
  cluster_status_view, cluster_view, cluster_list_view,
}
use cluster_api_provider_cce.Api.DeepCopy.ControlPlane.{
  copy_control_plane_spec, copy_control_plane_status, copy_control_plane, copy_control_plane_list,
}
use cluster_api_provider_cce.Api.DeepCopy.Views.ControlPlane.{
  control_plane_spec_view, control_plane_status_view, control_plane_view, control_plane_list_view,
}
use cluster_api_provider_cce.Api.DeepCopy.MachinePool.{
  copy_machine_pool_spec, copy_machine_pool_status, copy_machine_pool, copy_machine_pool_list,
}
use cluster_api_provider_cce.Api.DeepCopy.Views.MachinePool.{
  machine_pool_spec_view, machine_pool_status_view, machine_pool_view, machine_pool_list_view,
}
use cluster_api_provider_cce.Api.DeepCopy.Views.{
  network_spec_view, endpoint_access_view, taint_view,
}

pub data ApiType : Type 0 where
  vpc subnet eip volume network_status cluster_spec network_spec endpoint_access taint
        control_plane_spec machine_pool_spec cluster_status cluster cluster_list
        control_plane_status control_plane control_plane_list machine_pool_status machine_pool
        machine_pool_list :
      ApiType

module _ (V : Layouts) where
  -- What a struct of the type stands for.
  abbrev pub Value : ApiType → Type 0
  Value ApiType.vpc = Vpc
  Value ApiType.subnet = Subnet
  Value ApiType.eip = Eip
  Value ApiType.volume = Volume
  Value ApiType.network_status = NetworkStatus
  Value ApiType.cluster_spec = ClusterSpec
  Value ApiType.network_spec = NetworkSpec Option
  Value ApiType.endpoint_access = EndpointAccess Option
  Value ApiType.taint = Taint Option
  Value ApiType.control_plane_spec = ControlPlaneSpec Option
  Value ApiType.machine_pool_spec = MachinePoolSpec Option
  Value ApiType.cluster_status = ClusterStatus V Option
  Value ApiType.cluster = ManagedCluster V Option
  Value ApiType.cluster_list = ManagedClusterList V Option
  Value ApiType.control_plane_status = ControlPlaneStatus V Option
  Value ApiType.control_plane = ManagedControlPlane V Option
  Value ApiType.control_plane_list = ManagedControlPlaneList V Option
  Value ApiType.machine_pool_status = MachinePoolStatus V Option
  Value ApiType.machine_pool = ManagedMachinePool V Option
  Value ApiType.machine_pool_list = ManagedMachinePoolList V Option

module _ {L V : Layouts} (lib : Library L V) where
  -- The method DeepCopy of the type.
  abbrev pub deep_copy : ApiType → Pointer → Mem (Cell L) Pointer
  deep_copy ApiType.vpc = copy_vpc
  deep_copy ApiType.subnet = copy_subnet
  deep_copy ApiType.eip = copy_eip
  deep_copy ApiType.volume = copy_volume
  deep_copy ApiType.network_status = copy_network_status
  deep_copy ApiType.cluster_spec = copy_cluster_spec
  deep_copy ApiType.network_spec = copy_network_spec
  deep_copy ApiType.endpoint_access = copy_endpoint_access
  deep_copy ApiType.taint = copy_taint
  deep_copy ApiType.control_plane_spec = copy_control_plane_spec
  deep_copy ApiType.machine_pool_spec = copy_machine_pool_spec
  deep_copy ApiType.cluster_status = copy_cluster_status lib
  deep_copy ApiType.cluster = copy_cluster lib
  deep_copy ApiType.cluster_list = copy_cluster_list lib
  deep_copy ApiType.control_plane_status = copy_control_plane_status lib
  deep_copy ApiType.control_plane = copy_control_plane lib
  deep_copy ApiType.control_plane_list = copy_control_plane_list lib
  deep_copy ApiType.machine_pool_status = copy_machine_pool_status lib
  deep_copy ApiType.machine_pool = copy_machine_pool lib
  deep_copy ApiType.machine_pool_list = copy_machine_pool_list lib

  abbrev pub view : (t : ApiType) → Copied (Cell L) Pointer (Option (Value V t))
  view ApiType.vpc = pointer (plain Vpc) vpc_kind
  view ApiType.subnet = pointer (plain Subnet) subnet_kind
  view ApiType.eip = pointer (plain Eip) eip_kind
  view ApiType.volume = pointer (plain Volume) volume_kind
  view ApiType.network_status = pointer (plain NetworkStatus) network_status_kind
  view ApiType.cluster_spec = pointer (plain ClusterSpec) cluster_spec_kind
  view ApiType.network_spec = pointer network_spec_view network_spec_kind
  view ApiType.endpoint_access = pointer endpoint_access_view endpoint_access_kind
  view ApiType.taint = pointer taint_view taint_kind
  view ApiType.control_plane_spec = pointer control_plane_spec_view control_plane_spec_kind
  view ApiType.machine_pool_spec = pointer machine_pool_spec_view machine_pool_spec_kind
  view ApiType.cluster_status = pointer (cluster_status_view lib) cluster_status_kind
  view ApiType.cluster = pointer (cluster_view lib) cluster_kind
  view ApiType.cluster_list = pointer (cluster_list_view lib) cluster_list_kind
  view ApiType.control_plane_status =
      pointer (control_plane_status_view lib) control_plane_status_kind
  view ApiType.control_plane = pointer (control_plane_view lib) control_plane_kind
  view ApiType.control_plane_list = pointer (control_plane_list_view lib) control_plane_list_kind
  view ApiType.machine_pool_status = pointer (machine_pool_status_view lib) machine_pool_status_kind
  view ApiType.machine_pool = pointer (machine_pool_view lib) machine_pool_kind
  view ApiType.machine_pool_list = pointer (machine_pool_list_view lib) machine_pool_list_kind

  deep_copy-view :
      (t : ApiType) (p : Pointer) (h : List (Cell L)) → deep_copy t p h ≡ (view t).copy p h
  unfolding copy_vpc copy_subnet copy_eip copy_volume copy_network_status copy_cluster_spec
      copy_network_spec copy_endpoint_access copy_taint copy_control_plane_spec
      copy_machine_pool_spec copy_cluster_status copy_cluster copy_cluster_list
      copy_control_plane_status copy_control_plane copy_control_plane_list copy_machine_pool_status
      copy_machine_pool copy_machine_pool_list copy_vpc_into copy_subnet_into copy_eip_into
      copy_volume_into copy_network_status_into copy_cluster_spec_into
  deep_copy-view ApiType.vpc p h = refl
  deep_copy-view ApiType.subnet p h = refl
  deep_copy-view ApiType.eip p h = refl
  deep_copy-view ApiType.volume p h = refl
  deep_copy-view ApiType.network_status p h = refl
  deep_copy-view ApiType.cluster_spec p h = refl
  deep_copy-view ApiType.network_spec p h = refl
  deep_copy-view ApiType.endpoint_access p h = refl
  deep_copy-view ApiType.taint p h = refl
  deep_copy-view ApiType.control_plane_spec p h = refl
  deep_copy-view ApiType.machine_pool_spec p h = refl
  deep_copy-view ApiType.cluster_status p h = refl
  deep_copy-view ApiType.cluster p h = refl
  deep_copy-view ApiType.cluster_list p h = refl
  deep_copy-view ApiType.control_plane_status p h = refl
  deep_copy-view ApiType.control_plane p h = refl
  deep_copy-view ApiType.control_plane_list p h = refl
  deep_copy-view ApiType.machine_pool_status p h = refl
  deep_copy-view ApiType.machine_pool p h = refl
  deep_copy-view ApiType.machine_pool_list p h = refl

  -- Where a pointer to a type of the API stands for a value, so does what DeepCopy gives. Whatever is
  -- written afterwards to the cells that were there before the copy, the copy stands for the value;
  -- whatever is written to the cells that are new, the original does.
  pub deep_copy-isolated :
      (t : ApiType) (l : ℕ) (h : List (Cell L)) (p : Pointer) (v : Option (Value V t))
      (old new : List (ℕ × Cell L))
      → (view t).Reads l h p v
      → Below (length h) old
      → From (length h) new
      → let (q, k) = deep_copy t p h in
        (view t).Reads (length h) (stores old k) q v × (view t).Reads l (stores new k) p v
  deep_copy-isolated t l h p v old new r b f =
      rw (deep_copy-view t p h)
        ((copy-Isolates (view t) l h p v old r).0 b, (copy-Isolates (view t) l h p v new r).1 f)
