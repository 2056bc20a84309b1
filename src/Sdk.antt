-- ===== src/Sdk.antt =====
-- The requests and responses of the Huawei Cloud SDK, as far as the code writes and reads them, and
-- its clients as interfaces: `W` is the world outside the process, which each call may change.
-- A Go pointer that may be nil is an `Option`.
use cluster_api_provider_cce.Prelude.{ℕ, String, Bool, Option, List}
use cluster_api_provider_cce.Errors.{Result}

pub record ClusterEndpoint : Type 0 where
  pub url : Option String
  pub endpoint_type : Option String

pub record ClusterStatus : Type 0 where
  pub phase : Option String
  pub reason : Option String
  pub message : Option String
  pub endpoints : Option (List ClusterEndpoint)

pub record ShowClusterResponse : Type 0 where
  pub status : Option ClusterStatus

pub record CreateClusterResponse : Type 0 where
  pub metadata : Option (Option String)  -- *Metadata, with the field Uid *string
  pub status : Option ClusterStatus

pub record CreateClusterRequest : Type 0 where
  pub api_version : String
  pub kind : String
  pub name : String
  pub version : Option String
  pub flavor : String
  pub vpc : String
  pub subnet : String
  pub mode : String
  pub cidrs : List String
  pub kubernetes_svc_ip_range : String
  pub enterprise_project_id : String
  pub alpha_cce_fix_pool_mask : Option String

-- An entry of CreateKubernetesClusterCertResponse.Users: its field User is a pointer.
pub record CertUser : Type 0 where
  pub client_certificate_data : Option String
  pub client_key_data : Option String

pub record NodePoolStatus : Type 0 where
  pub phase : Option String
  pub current_node : Option ℕ  -- the bit pattern of an int32

pub record NodePool : Type 0 where
  pub kind : String
  pub api_version : String
  pub metadata_uid : Option (Option String)  -- *NodePoolMetadata, with the field Uid *string
  pub status : Option NodePoolStatus

-- ShowNodePoolResponse and CreateNodePoolResponse have the same fields.
pub record NodePoolResponse : Type 0 where
  pub kind : Option String
  pub api_version : Option String
  pub metadata_uid : Option (Option String)
  pub status : Option NodePoolStatus

pub record SdkVolume : Type 0 where
  pub size : ℕ
  pub volumetype : String

pub record CreateNodePoolRequest : Type 0 where
  pub cluster_id : String
  pub api_version : String
  pub kind : String
  pub name : String
  pub pool_type : String
  pub flavor : String
  pub az : String
  pub os : String
  pub ssh_key : Option String
  pub root_volume : SdkVolume
  pub data_volumes : List SdkVolume
  pub subnet_id : String
  pub runtime : String
  pub initial_node_count : Option ℕ
  pub autoscaling : Bool

pub record NodeMetadata : Type 0 where
  pub annotations : List (String × String)
  pub uid : Option String

pub record Node : Type 0 where
  pub metadata : Option NodeMetadata
  pub az : Option String  -- *NodeSpec, with the field Az

pub record CreateVpcRequest : Type 0 where
  pub name : String
  pub cidr : String
  pub enterprise_project_id : String
  pub tags : List String

pub record CreateSubnetRequest : Type 0 where
  pub name : String
  pub cidr : String
  pub vpc_id : String
  pub gateway_ip : String
  pub tags : List String

pub record CreatePublicipRequest : Type 0 where
  pub eip_type : String
  pub charge_mode : String
  pub bandwidth_name : String
  pub share_type : String
  pub size : ℕ
  pub enterprise_project_id : String

-- services/cce/v3. `show_cluster_endpoints` gives *Status, with the field PublicEndpoint *string.
pub record CceClient (W : Type 0) : Type 0 where
  pub show_cluster : String → W → Result ShowClusterResponse × W
  pub create_cluster : CreateClusterRequest → W → Result CreateClusterResponse × W
  pub delete_cluster : String → W → Result (Unit {0}) × W
  pub show_cluster_endpoints : String → W → Result (Option (Option String)) × W
  pub update_cluster_eip : String → String → Option String → W → Result (Unit {0}) × W
  pub create_cert : String → ℕ → W → Result (Option (List (Option CertUser))) × W
  pub show_node_pool : String → String → W → Result NodePoolResponse × W
  pub create_node_pool : CreateNodePoolRequest → W → Result NodePoolResponse × W
  pub delete_node_pool : String → String → W → Result (Unit {0}) × W
  pub list_nodes : String → W → Result (Option (List Node)) × W

-- services/eip/v2: *Publicip, with the field Id *string
pub record EipClient (W : Type 0) : Type 0 where
  pub create_publicip : CreatePublicipRequest → W → Result (Option (Option String)) × W

-- services/vpc/v2: *Vpc and *Subnet with the field Id, *[]Subnet
pub record VpcClient (W : Type 0) : Type 0 where
  pub create_vpc : CreateVpcRequest → W → Result (Option String) × W
  pub create_subnet : CreateSubnetRequest → W → Result (Option String) × W
  pub list_subnets : String → W → Result (Option (List String)) × W

-- The values of the SDK's enumerations that the code names.
pub record Enums : Type 0 where
  pub vpc_router : String
  pub overlay_l2 : String
  pub docker : String
  pub containerd : String
  pub no_schedule : String
  pub prefer_no_schedule : String
  pub no_execute : String
  pub vm : String
  pub bind : String
  pub traffic : String
  pub per : String
  pub synchronizing : String
  pub synchronized : String
  pub deleting : String
  pub error : String
  pub sold_out : String
