-- ===== src/Api/DeepCopy.antt =====
-- api/v1beta1/zz_generated.deepcopy.go: the deep copies of the API types.
pub mod Structs
pub mod ManagedCluster
pub mod ControlPlane
pub mod MachinePool
pub mod Object
pub mod Views
pub mod Isolation
use cluster_api_provider_cce.Memory.Copies.{Copied}
use cluster_api_provider_cce.Api.Memory.{Layouts}
use cluster_api_provider_cce.Api.Memory.Cells.{Cell}

-- DeepCopyInto of the libraries' types, and of a failure domain, whose DeepCopy documents a deep copy. The
-- values that they stand for are those of `V`.
pub record Library (L V : Layouts) : Type 1 where
  pub meta : Copied (Cell L) L.Meta V.Meta
  pub list_meta : Copied (Cell L) L.ListMeta V.ListMeta
  pub condition : Copied (Cell L) L.Condition V.Condition
  pub domain : Copied (Cell L) L.Domain V.Domain
