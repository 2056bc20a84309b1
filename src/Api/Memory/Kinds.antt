-- ===== src/Api/Memory/Kinds.antt =====
-- Each type that a cell of memory can hold, as a kind of cell.
use cluster_api_provider_cce.Prelude.{ℕ, String, Bool, refl, List}
use cluster_api_provider_cce.Memory.{Pointer}
use cluster_api_provider_cce.Memory.Copies.{Kind}
use cluster_api_provider_cce.Api.Meta.{ObjectReference}
use cluster_api_provider_cce.Api.Memory.{
  Layouts, Address, Vpc, Subnet, Eip, Volume, NetworkStatus, NetworkSpec, EndpointAccess, Taint,
  ClusterSpec, ClusterStatus, ManagedCluster, ManagedClusterList, ControlPlaneSpec,
  ControlPlaneStatus, ManagedControlPlane, ManagedControlPlaneList, MachinePoolSpec,
  MachinePoolStatus, ManagedMachinePool, ManagedMachinePoolList,
}
use cluster_api_provider_cce.Api.Memory.Cells.{
  Cell, un_text, un_flag, un_number, un_reference, un_strings, un_pairs, un_vpc, un_subnet, un_eip,
  un_volume, un_volumes, un_network_status, un_network_spec, un_endpoint_access, un_taint,
  un_taints, un_slice, un_conditions, un_domains, un_cluster_spec, un_cluster_status, un_cluster,
  un_clusters, un_cluster_list, un_control_plane_spec, un_control_plane_status, un_control_plane,
  un_control_planes, un_control_plane_list, un_machine_pool_spec, un_machine_pool_status,
  un_machine_pool, un_machine_pools, un_machine_pool_list, un_foreign,
}

module _ {L : Layouts} where
  abbrev pub text_kind : Kind (Cell L) String
  text_kind = record { box = Cell.text; unbox = un_text; unbox-box = λ a. refl }

  abbrev pub flag_kind : Kind (Cell L) Bool
  flag_kind = record { box = Cell.flag; unbox = un_flag; unbox-box = λ a. refl }

  abbrev pub number_kind : Kind (Cell L) ℕ
  number_kind = record { box = Cell.number; unbox = un_number; unbox-box = λ a. refl }

  abbrev pub reference_kind : Kind (Cell L) ObjectReference
  reference_kind = record { box = Cell.reference; unbox = un_reference; unbox-box = λ a. refl }

  abbrev pub strings_kind : Kind (Cell L) (List String)
  strings_kind = record { box = Cell.strings; unbox = un_strings; unbox-box = λ a. refl }

  abbrev pub pairs_kind : Kind (Cell L) (List (String × String))
  pairs_kind = record { box = Cell.pairs; unbox = un_pairs; unbox-box = λ a. refl }

  abbrev pub vpc_kind : Kind (Cell L) Vpc
  vpc_kind = record { box = Cell.vpc; unbox = un_vpc; unbox-box = λ a. refl }

  abbrev pub subnet_kind : Kind (Cell L) Subnet
  subnet_kind = record { box = Cell.subnet; unbox = un_subnet; unbox-box = λ a. refl }

  abbrev pub eip_kind : Kind (Cell L) Eip
  eip_kind = record { box = Cell.eip; unbox = un_eip; unbox-box = λ a. refl }

  abbrev pub volume_kind : Kind (Cell L) Volume
  volume_kind = record { box = Cell.volume; unbox = un_volume; unbox-box = λ a. refl }

  abbrev pub volumes_kind : Kind (Cell L) (List Volume)
  volumes_kind = record { box = Cell.volumes; unbox = un_volumes; unbox-box = λ a. refl }

  abbrev pub network_status_kind : Kind (Cell L) NetworkStatus
  network_status_kind = record {
    box = Cell.network_status;
    unbox = un_network_status;
    unbox-box = λ a. refl;
  }

  abbrev pub network_spec_kind : Kind (Cell L) (NetworkSpec Address)
  network_spec_kind = record {
    box = Cell.network_spec;
    unbox = un_network_spec;
    unbox-box = λ a. refl;
  }

  abbrev pub endpoint_access_kind : Kind (Cell L) (EndpointAccess Address)
  endpoint_access_kind = record {
    box = Cell.endpoint_access;
    unbox = un_endpoint_access;
    unbox-box = λ a. refl;
  }

  abbrev pub taint_kind : Kind (Cell L) (Taint Address)
  taint_kind = record { box = Cell.taint; unbox = un_taint; unbox-box = λ a. refl }

  abbrev pub taints_kind : Kind (Cell L) (List (Taint Address))
  taints_kind = record { box = Cell.taints; unbox = un_taints; unbox-box = λ a. refl }

  abbrev pub slice_kind : Kind (Cell L) Pointer
  slice_kind = record { box = Cell.slice; unbox = un_slice; unbox-box = λ a. refl }

  abbrev pub conditions_kind : Kind (Cell L) (List L.Condition)
  conditions_kind = record { box = Cell.conditions; unbox = un_conditions; unbox-box = λ a. refl }

  abbrev pub domains_kind : Kind (Cell L) (List (String × L.Domain))
  domains_kind = record { box = Cell.domains; unbox = un_domains; unbox-box = λ a. refl }

  abbrev pub cluster_spec_kind : Kind (Cell L) ClusterSpec
  cluster_spec_kind = record {
    box = Cell.cluster_spec;
    unbox = un_cluster_spec;
    unbox-box = λ a. refl;
  }

  abbrev pub cluster_status_kind : Kind (Cell L) (ClusterStatus L Address)
  cluster_status_kind = record {
    box = Cell.cluster_status;
    unbox = un_cluster_status;
    unbox-box = λ a. refl;
  }

  abbrev pub cluster_kind : Kind (Cell L) (ManagedCluster L Address)
  cluster_kind = record { box = Cell.cluster; unbox = un_cluster; unbox-box = λ a. refl }

  abbrev pub clusters_kind : Kind (Cell L) (List (ManagedCluster L Address))
  clusters_kind = record { box = Cell.clusters; unbox = un_clusters; unbox-box = λ a. refl }

  abbrev pub cluster_list_kind : Kind (Cell L) (ManagedClusterList L Address)
  cluster_list_kind = record {
    box = Cell.cluster_list;
    unbox = un_cluster_list;
    unbox-box = λ a. refl;
  }

  abbrev pub control_plane_spec_kind : Kind (Cell L) (ControlPlaneSpec Address)
  control_plane_spec_kind = record {
    box = Cell.control_plane_spec;
    unbox = un_control_plane_spec;
    unbox-box = λ a. refl;
  }

  abbrev pub control_plane_status_kind : Kind (Cell L) (ControlPlaneStatus L Address)
  control_plane_status_kind = record {
    box = Cell.control_plane_status;
    unbox = un_control_plane_status;
    unbox-box = λ a. refl;
  }

  abbrev pub control_plane_kind : Kind (Cell L) (ManagedControlPlane L Address)
  control_plane_kind = record {
    box = Cell.control_plane;
    unbox = un_control_plane;
    unbox-box = λ a. refl;
  }

  abbrev pub control_planes_kind : Kind (Cell L) (List (ManagedControlPlane L Address))
  control_planes_kind = record {
    box = Cell.control_planes;
    unbox = un_control_planes;
    unbox-box = λ a. refl;
  }

  abbrev pub control_plane_list_kind : Kind (Cell L) (ManagedControlPlaneList L Address)
  control_plane_list_kind = record {
    box = Cell.control_plane_list;
    unbox = un_control_plane_list;
    unbox-box = λ a. refl;
  }

  abbrev pub machine_pool_spec_kind : Kind (Cell L) (MachinePoolSpec Address)
  machine_pool_spec_kind = record {
    box = Cell.machine_pool_spec;
    unbox = un_machine_pool_spec;
    unbox-box = λ a. refl;
  }

  abbrev pub machine_pool_status_kind : Kind (Cell L) (MachinePoolStatus L Address)
  machine_pool_status_kind = record {
    box = Cell.machine_pool_status;
    unbox = un_machine_pool_status;
    unbox-box = λ a. refl;
  }

  abbrev pub machine_pool_kind : Kind (Cell L) (ManagedMachinePool L Address)
  machine_pool_kind = record {
    box = Cell.machine_pool;
    unbox = un_machine_pool;
    unbox-box = λ a. refl;
  }

  abbrev pub machine_pools_kind : Kind (Cell L) (List (ManagedMachinePool L Address))
  machine_pools_kind = record {
    box = Cell.machine_pools;
    unbox = un_machine_pools;
    unbox-box = λ a. refl;
  }

  abbrev pub machine_pool_list_kind : Kind (Cell L) (ManagedMachinePoolList L Address)
  machine_pool_list_kind = record {
    box = Cell.machine_pool_list;
    unbox = un_machine_pool_list;
    unbox-box = λ a. refl;
  }

  abbrev pub foreign_kind : Kind (Cell L) L.Foreign
  foreign_kind = record { box = Cell.foreign; unbox = un_foreign; unbox-box = λ a. refl }
