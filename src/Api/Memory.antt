-- ===== src/Api/Memory.antt =====
-- The types of api/v1beta1/ as they lie in memory, with all their pointers, slices and maps.
pub mod Cells
pub mod Kinds
use cluster_api_provider_cce.Prelude.{ℕ, String, Bool, Option, List}
use cluster_api_provider_cce.Memory.{Pointer}
use cluster_api_provider_cce.Api.Meta.{ObjectReference, ApiEndpoint}

-- The types of the libraries that lie within those of the API: metav1.ObjectMeta, metav1.ListMeta,
-- clusterv1.Condition and clusterv1.FailureDomainSpec, and what cells of their own hold.
pub record Layouts : Type 1 where
  pub Meta : Type 0
  pub ListMeta : Type 0
  pub Condition : Type 0
  pub Domain : Type 0
  pub Foreign : Type 0

-- What a field of pointer type holds: in memory the address of a cell, in a value what is there.
abbrev pub Address : Type 0 → Type 0
Address A = Pointer

pub record TypeMeta : Type 0 where
  pub kind : String
  pub api_version : String

pub record Vpc : Type 0 where
  pub id : String

pub record Subnet : Type 0 where
  pub id : String

pub record Eip : Type 0 where
  pub id : String

pub record Volume : Type 0 where
  pub size : ℕ
  pub volumetype : String

pub record NetworkStatus : Type 0 where
  pub eip : Eip

-- With `P` as `Address` these are the structs of Go, with `P` as `Option` their values.
pub record EndpointAccess (P : Type 0 → Type 0) : Type 0 where
  pub is_public : P Bool

pub record NetworkSpec (P : Type 0 → Type 0) : Type 0 where
  pub mode : P String
  pub vpc : Vpc
  pub subnet : Subnet

pub record Taint (P : Type 0 → Type 0) : Type 0 where
  pub key : String
  pub value : P String
  pub effect : String

pub record ClusterSpec : Type 0 where
  pub control_plane_endpoint : ApiEndpoint

pub record ControlPlaneSpec (P : Type 0 → Type 0) : Type 0 where
  pub identity_ref : P ObjectReference
  pub project : P String
  pub region : String
  pub version : P String
  pub flavor : P String
  pub network_spec : NetworkSpec P
  pub endpoint_access : P (EndpointAccess P)
  pub control_plane_endpoint : ApiEndpoint

pub record MachinePoolSpec (P : Type 0 → Type 0) : Type 0 where
  pub replicas : P ℕ
  pub flavor : P String
  pub runtime : P String
  pub ssh_key_name : P String
  pub root_volume : P Volume
  pub data_volumes : P (List Volume)
  pub labels : P (List (String × String))
  pub taints : P (P (List (Taint P)))
  pub subnet : P Subnet
  pub provider_id_list : P (List String)

module _ (L : Layouts) (P : Type 0 → Type 0) where
  pub record ClusterStatus : Type 0 where
    pub ready : Bool
    pub failure_domains : P (List (String × L.Domain))

  pub record ManagedCluster : Type 0 where
    pub type_meta : TypeMeta
    pub meta : L.Meta
    pub spec : ClusterSpec
    pub status : ClusterStatus

  pub record ControlPlaneStatus : Type 0 where
    pub network : NetworkStatus
    pub external_managed_control_plane : P Bool
    pub initialized : Bool
    pub ready : Bool
    pub failure_message : P String
    pub conditions : P (List L.Condition)

  pub record ManagedControlPlane : Type 0 where
    pub type_meta : TypeMeta
    pub meta : L.Meta
    pub spec : ControlPlaneSpec P
    pub status : ControlPlaneStatus

  pub record MachinePoolStatus : Type 0 where
    pub ready : Bool
    pub replicas : ℕ
    pub failure_reason : P String
    pub failure_message : P String
    pub conditions : P (List L.Condition)

  pub record ManagedMachinePool : Type 0 where
    pub type_meta : TypeMeta
    pub meta : L.Meta
    pub spec : MachinePoolSpec P
    pub status : MachinePoolStatus

  pub record ManagedClusterList : Type 0 where
    pub type_meta : TypeMeta
    pub list_meta : L.ListMeta
    pub items : P (List ManagedCluster)

  pub record ManagedControlPlaneList : Type 0 where
    pub type_meta : TypeMeta
    pub list_meta : L.ListMeta
    pub items : P (List ManagedControlPlane)

  pub record ManagedMachinePoolList : Type 0 where
    pub type_meta : TypeMeta
    pub list_meta : L.ListMeta
    pub items : P (List ManagedMachinePool)
