-- ===== src/Api/Meta.antt =====
-- Object metadata and the Cluster API objects, as far as the code reads them.
use cluster_api_provider_cce.Prelude.{ℕ, String, Bool, Option, List}

-- ownerReferences: `api_version` is parsed by `schema.ParseGroupVersion`.
pub record OwnerReference : Type 0 where
  pub api_version : String
  pub kind : String
  pub name : String

pub record ObjectReference : Type 0 where
  pub kind : String
  pub namespace : String
  pub name : String

-- `labels` is a Go map, which may be nil; `deleted` says that the deletion timestamp is set.
pub record ObjectMeta : Type 0 where
  pub name : String
  pub namespace : String
  pub labels : Option (List (String × String))
  pub finalizers : List String
  pub deleted : Bool
  pub owner_references : List OwnerReference

pub record NamespacedName : Type 0 where
  pub namespace : String
  pub name : String

-- `port` is the bit pattern of an int32.
pub record ApiEndpoint : Type 0 where
  pub host : String
  pub port : ℕ

pub record NetworkRanges : Type 0 where
  pub cidr_blocks : List String

pub record ClusterNetwork : Type 0 where
  pub services : Option NetworkRanges
  pub pods : Option NetworkRanges

-- clusterv1.Cluster
pub record Cluster : Type 0 where
  pub meta : ObjectMeta
  pub cluster_network : Option ClusterNetwork
  pub control_plane_ref : Option ObjectReference
  pub infrastructure_ref : Option ObjectReference
  pub infrastructure_ready : Bool

-- expclusterv1.MachinePool; the reference is `spec.template.spec.infrastructureRef`.
pub record MachinePool : Type 0 where
  pub meta : ObjectMeta
  pub infrastructure_group : String
  pub infrastructure_kind : String
  pub infrastructure_name : String
