-- ===== src/Call.antt =====
-- The calls that leave the process, as the trace of a run records them, and the two scopes' actions.
use cluster_api_provider_cce.Prelude.{ℕ, String, Option, List}
use cluster_api_provider_cce.Api.Meta.{NamespacedName}
use cluster_api_provider_cce.Api.ControlPlane.{ControlPlane}
use cluster_api_provider_cce.Api.MachinePool.{ManagedMachinePool}
use cluster_api_provider_cce.Api.ManagedCluster.{ManagedCluster}
use cluster_api_provider_cce.Sdk.{
  CreateClusterRequest, CreateNodePoolRequest, CreateVpcRequest, CreateSubnetRequest,
  CreatePublicipRequest,
}
use cluster_api_provider_cce.Go.{M}

pub data Call (C : Type 0) : Type 0 where
  show_cluster : String → Call C
  create_cluster : CreateClusterRequest → Call C
  delete_cluster : String → Call C
  show_cluster_endpoints : String → Call C
  update_cluster_eip : String → String → Option String → Call C
  create_cert : String → ℕ → Call C
  show_node_pool : String → String → Call C
  create_node_pool : CreateNodePoolRequest → Call C
  delete_node_pool : String → String → Call C
  list_nodes : String → Call C
  create_publicip : CreatePublicipRequest → Call C
  create_vpc : CreateVpcRequest → Call C
  create_subnet : CreateSubnetRequest → Call C
  list_subnets : String → Call C
  get_secret : NamespacedName → Call C
  get_kubeconfig_secret : NamespacedName → Call C
  create_kubeconfig_secret : NamespacedName → String → Call C
  update_secret : List (String × String) → Call C
  patch_control_plane : ControlPlane C → Call C
  patch_machine_pool : ManagedMachinePool C → Call C
  patch_managed_cluster : ManagedCluster → Call C
  -- a read of an object or of a list by the controllers, by what is read
  read : String → Call C
  event : String → Call C
  sleep : ℕ → Call C

-- An action on the control plane's object, on the machine pool's, on the managed cluster's.
abbrev pub CpM : Type 0 → Type 0 → Type 0 → Type 0
CpM W C = M W (Call C) (ControlPlane C)

abbrev pub PoolM : Type 0 → Type 0 → Type 0 → Type 0
PoolM W C = M W (Call C) (ManagedMachinePool C)

abbrev pub ClusterM : Type 0 → Type 0 → Type 0 → Type 0
ClusterM W C = M W (Call C) ManagedCluster
