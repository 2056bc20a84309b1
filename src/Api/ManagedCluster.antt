-- ===== src/Api/ManagedCluster.antt =====
-- api/v1beta1/ccemanagedcluster_types.go
use cluster_api_provider_cce.Prelude.{String, Bool, List}
use cluster_api_provider_cce.Api.Meta.{ObjectMeta, ApiEndpoint}

-- CCEManagedCluster, with its spec and its status.
pub record ManagedCluster : Type 0 where
  pub meta : ObjectMeta
  pub control_plane_endpoint : ApiEndpoint
  pub ready : Bool
  pub failure_domains : List String
