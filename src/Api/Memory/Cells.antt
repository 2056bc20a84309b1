-- ===== src/Api/Memory/Cells.antt =====
-- What a cell of memory can hold, and each kind of cell.
use cluster_api_provider_cce.Prelude.{ℕ, String, Bool, Option, none, some, List}
use cluster_api_provider_cce.Memory.{Pointer}
use cluster_api_provider_cce.Api.Meta.{ObjectReference}
use cluster_api_provider_cce.Api.Memory.{
  Layouts, Address, Vpc, Subnet, Eip, Volume, NetworkStatus, NetworkSpec, EndpointAccess, Taint,
  ClusterSpec, ClusterStatus, ManagedCluster, ManagedClusterList, ControlPlaneSpec,
  ControlPlaneStatus, ManagedControlPlane, ManagedControlPlaneList, MachinePoolSpec,
  MachinePoolStatus, ManagedMachinePool, ManagedMachinePoolList,
}

-- `slice` is the cell that a pointer to a slice points to; plural names are the elements of a slice or of
-- a map.
pub data Cell (L : Layouts) : Type 0 where
  text : String → Cell L
  flag : Bool → Cell L
  number : ℕ → Cell L
  reference : ObjectReference → Cell L
  strings : (List String) → Cell L
  pairs : (List (String × String)) → Cell L
  vpc : Vpc → Cell L
  subnet : Subnet → Cell L
  eip : Eip → Cell L
  volume : Volume → Cell L
  volumes : (List Volume) → Cell L
  network_status : NetworkStatus → Cell L
  network_spec : (NetworkSpec Address) → Cell L
  endpoint_access : (EndpointAccess Address) → Cell L
  taint : (Taint Address) → Cell L
  taints : (List (Taint Address)) → Cell L
  slice : Pointer → Cell L
  conditions : (List L.Condition) → Cell L
  domains : (List (String × L.Domain)) → Cell L
  cluster_spec : ClusterSpec → Cell L
  cluster_status : (ClusterStatus L Address) → Cell L
  cluster : (ManagedCluster L Address) → Cell L
  clusters : (List (ManagedCluster L Address)) → Cell L
  cluster_list : (ManagedClusterList L Address) → Cell L
  control_plane_spec : (ControlPlaneSpec Address) → Cell L
  control_plane_status : (ControlPlaneStatus L Address) → Cell L
  control_plane : (ManagedControlPlane L Address) → Cell L
  control_planes : (List (ManagedControlPlane L Address)) → Cell L
  control_plane_list : (ManagedControlPlaneList L Address) → Cell L
  machine_pool_spec : (MachinePoolSpec Address) → Cell L
  machine_pool_status : (MachinePoolStatus L Address) → Cell L
  machine_pool : (ManagedMachinePool L Address) → Cell L
  machine_pools : (List (ManagedMachinePool L Address)) → Cell L
  machine_pool_list : (ManagedMachinePoolList L Address) → Cell L
  foreign : L.Foreign → Cell L

module _ {L : Layouts} where
  abbrev pub un_text : Cell L → Option String
  un_text (Cell.text a) = some a
  un_text _ = none

  abbrev pub un_flag : Cell L → Option Bool
  un_flag (Cell.flag a) = some a
  un_flag _ = none

  abbrev pub un_number : Cell L → Option ℕ
  un_number (Cell.number a) = some a
  un_number _ = none

  abbrev pub un_reference : Cell L → Option ObjectReference
  un_reference (Cell.reference a) = some a
  un_reference _ = none

  abbrev pub un_strings : Cell L → Option (List String)
  un_strings (Cell.strings a) = some a
  un_strings _ = none

  abbrev pub un_pairs : Cell L → Option (List (String × String))
  un_pairs (Cell.pairs a) = some a
  un_pairs _ = none

  abbrev pub un_vpc : Cell L → Option Vpc
  un_vpc (Cell.vpc a) = some a
  un_vpc _ = none

  abbrev pub un_subnet : Cell L → Option Subnet
  un_subnet (Cell.subnet a) = some a
  un_subnet _ = none

  abbrev pub un_eip : Cell L → Option Eip
  un_eip (Cell.eip a) = some a
  un_eip _ = none

  abbrev pub un_volume : Cell L → Option Volume
  un_volume (Cell.volume a) = some a
  un_volume _ = none

  abbrev pub un_volumes : Cell L → Option (List Volume)
  un_volumes (Cell.volumes a) = some a
  un_volumes _ = none

  abbrev pub un_network_status : Cell L → Option NetworkStatus
  un_network_status (Cell.network_status a) = some a
  un_network_status _ = none

  abbrev pub un_network_spec : Cell L → Option (NetworkSpec Address)
  un_network_spec (Cell.network_spec a) = some a
  un_network_spec _ = none

  abbrev pub un_endpoint_access : Cell L → Option (EndpointAccess Address)
  un_endpoint_access (Cell.endpoint_access a) = some a
  un_endpoint_access _ = none

  abbrev pub un_taint : Cell L → Option (Taint Address)
  un_taint (Cell.taint a) = some a
  un_taint _ = none

  abbrev pub un_taints : Cell L → Option (List (Taint Address))
  un_taints (Cell.taints a) = some a
  un_taints _ = none

  abbrev pub un_slice : Cell L → Option Pointer
  un_slice (Cell.slice a) = some a
  un_slice _ = none

  abbrev pub un_conditions : Cell L → Option (List L.Condition)
  un_conditions (Cell.conditions a) = some a
  un_conditions _ = none

  abbrev pub un_domains : Cell L → Option (List (String × L.Domain))
  un_domains (Cell.domains a) = some a
  un_domains _ = none

  abbrev pub un_cluster_spec : Cell L → Option ClusterSpec
  un_cluster_spec (Cell.cluster_spec a) = some a
  un_cluster_spec _ = none

  abbrev pub un_cluster_status : Cell L → Option (ClusterStatus L Address)
  un_cluster_status (Cell.cluster_status a) = some a
  un_cluster_status _ = none

  abbrev pub un_cluster : Cell L → Option (ManagedCluster L Address)
  un_cluster (Cell.cluster a) = some a
  un_cluster _ = none

  abbrev pub un_clusters : Cell L → Option (List (ManagedCluster L Address))
  un_clusters (Cell.clusters a) = some a
  un_clusters _ = none

  abbrev pub un_cluster_list : Cell L → Option (ManagedClusterList L Address)
  un_cluster_list (Cell.cluster_list a) = some a
  un_cluster_list _ = none

  abbrev pub un_control_plane_spec : Cell L → Option (ControlPlaneSpec Address)
  un_control_plane_spec (Cell.control_plane_spec a) = some a
  un_control_plane_spec _ = none

  abbrev pub un_control_plane_status : Cell L → Option (ControlPlaneStatus L Address)
  un_control_plane_status (Cell.control_plane_status a) = some a
  un_control_plane_status _ = none

  abbrev pub un_control_plane : Cell L → Option (ManagedControlPlane L Address)
  un_control_plane (Cell.control_plane a) = some a
  un_control_plane _ = none

  abbrev pub un_control_planes : Cell L → Option (List (ManagedControlPlane L Address))
  un_control_planes (Cell.control_planes a) = some a
  un_control_planes _ = none

  abbrev pub un_control_plane_list : Cell L → Option (ManagedControlPlaneList L Address)
  un_control_plane_list (Cell.control_plane_list a) = some a
  un_control_plane_list _ = none

  abbrev pub un_machine_pool_spec : Cell L → Option (MachinePoolSpec Address)
  un_machine_pool_spec (Cell.machine_pool_spec a) = some a
  un_machine_pool_spec _ = none

  abbrev pub un_machine_pool_status : Cell L → Option (MachinePoolStatus L Address)
  un_machine_pool_status (Cell.machine_pool_status a) = some a
  un_machine_pool_status _ = none

  abbrev pub un_machine_pool : Cell L → Option (ManagedMachinePool L Address)
  un_machine_pool (Cell.machine_pool a) = some a
  un_machine_pool _ = none

  abbrev pub un_machine_pools : Cell L → Option (List (ManagedMachinePool L Address))
  un_machine_pools (Cell.machine_pools a) = some a
  un_machine_pools _ = none

  abbrev pub un_machine_pool_list : Cell L → Option (ManagedMachinePoolList L Address)
  un_machine_pool_list (Cell.machine_pool_list a) = some a
  un_machine_pool_list _ = none

  abbrev pub un_foreign : Cell L → Option L.Foreign
  un_foreign (Cell.foreign a) = some a
  un_foreign _ = none
