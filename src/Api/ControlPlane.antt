-- ===== src/Api/ControlPlane.antt =====
-- api/v1beta1/ccemanagedcontrolplane_types.go
use cluster_api_provider_cce.Prelude.{String, Bool, Option, none, some, List, lookup}
use cluster_api_provider_cce.Api.Meta.{ObjectMeta, ObjectReference, ApiEndpoint}

abbrev pub managed_control_plane_finalizer : String
managed_control_plane_finalizer = "ccemanagedcontrolplane.infrastructure.cluster.x-k8s.io"

abbrev pub infra_cluster_id_label : String
infra_cluster_id_label = "cluster.x-k8s.io/infra-cluster-id"

abbrev pub control_plane_ready : String
control_plane_ready = "CCEControlPlaneReady"

abbrev pub control_plane_creating : String
control_plane_creating = "CCEControlPlaneCreating"

abbrev pub control_plane_updating : String
control_plane_updating = "CCEControlPlaneUpdating"

abbrev pub control_plane_reconciliation_failed : String
control_plane_reconciliation_failed = "CCEControlPlaneReconciliationFailed"

abbrev pub vpc_ready : String
vpc_ready = "VpcReady"

abbrev pub vpc_creation_started : String
vpc_creation_started = "VpcCreationStarted"

abbrev pub vpc_reconciliation_failed : String
vpc_reconciliation_failed = "VpcReconciliationFailed"

abbrev pub subnets_ready : String
subnets_ready = "SubnetsReady"

abbrev pub subnets_reconciliation_failed : String
subnets_reconciliation_failed = "SubnetsReconciliationFailed"

pub record NetworkSpec : Type 0 where
  pub mode : Option String
  pub vpc_id : String
  pub subnet_id : String

pub record NetworkStatus : Type 0 where
  pub eip_id : String

-- `public` is `EndpointAccess.Public`.
pub record EndpointAccess : Type 0 where
  pub is_public : Option Bool

pub record ControlPlaneSpec : Type 0 where
  pub identity_ref : Option ObjectReference
  pub project : Option String
  pub region : String
  pub version : Option String
  pub flavor : Option String
  pub network : NetworkSpec
  pub endpoint_access : Option EndpointAccess
  pub control_plane_endpoint : ApiEndpoint

pub record ControlPlaneStatus (C : Type 0) : Type 0 where
  pub network : NetworkStatus
  pub external_managed_control_plane : Option Bool
  pub initialized : Bool
  pub ready : Bool
  pub failure_message : Option String
  pub conditions : C

-- CCEManagedControlPlane
pub record ControlPlane (C : Type 0) : Type 0 where
  pub meta : ObjectMeta
  pub spec : ControlPlaneSpec
  pub status : ControlPlaneStatus C

-- `GetLabels()[key]`, with "" for a missing key; a read of a nil map finds nothing.
unfoldable pub label_or_empty : String → Option (List (String × String)) → String
label_or_empty key none = ""
label_or_empty key (some labels) = elim (lookup key labels) [ none ↦ "" | some id ↦ id ]

-- CCEManagedControlPlane.InfraClusterID, and the scope's method of the same body.
unfoldable pub infra_cluster_id : {C : Type 0} → ControlPlane C → String
unfolding label_or_empty
infra_cluster_id cp = label_or_empty infra_cluster_id_label cp.meta.labels
