-- ===== src/Cluster/Request.antt =====
-- createCluster of pkg/cloud/services/cce/cluster.go: what is asked of CCE.
pub mod Laws
use cluster_api_provider_cce.Prelude.{
  String, Option, none, some, List, [], ◌∷◌, ◌==◌, if◌then◌else◌, get_or,
}
use cluster_api_provider_cce.Env.{Env}
use cluster_api_provider_cce.Sdk.{Enums, CreateClusterRequest}
use cluster_api_provider_cce.Api.Meta.{ClusterNetwork, NetworkRanges}
use cluster_api_provider_cce.Api.ControlPlane.{ControlPlane}
use cluster_api_provider_cce.Scope.ControlPlane.{project}

abbrev pub default_container_cidr : String
default_container_cidr = "10.0.0.0/16"

abbrev pub default_service_cidr : String
default_service_cidr = "10.247.0.0/16"

-- The default mode is the literal "vpc-router"; the comparison is with the SDK's value.
unfoldable pub container_network_mode : Enums → Option String → String
container_network_mode enums mode =
    if enums.vpc_router == get_or "vpc-router" mode then enums.vpc_router else enums.overlay_l2

abbrev pub pod_blocks : Option NetworkRanges → List String
pod_blocks none = []
pod_blocks (some pods) = pods.cidr_blocks

abbrev pub or_default_cidr : List String → List String
or_default_cidr [] = default_container_cidr ∷ []
or_default_cidr (cidr ∷ cidrs) = cidr ∷ cidrs

unfoldable pub container_cidrs : Option NetworkRanges → List String
container_cidrs pods = or_default_cidr (pod_blocks pods)

unfoldable pub service_ip_range : (List String → String) → Option NetworkRanges → String
service_ip_range ranges_string none = default_service_cidr
service_ip_range ranges_string (some services) = ranges_string services.cidr_blocks

unfoldable pub fix_pool_mask : Enums → String → Option String
fix_pool_mask enums mode = if mode == enums.vpc_router then some "25" else none

module _ {W C : Type 0} (env : Env W C) where
  unfoldable pub cluster_request : ClusterNetwork → ControlPlane C → CreateClusterRequest
  cluster_request network cp =
      let mode = container_network_mode env.enums cp.spec.network.mode in
      record {
        api_version = "v3";
        kind = "Cluster";
        name = cp.meta.name;
        version = cp.spec.version;
        flavor = get_or "cce.s2.small" cp.spec.flavor;
        vpc = cp.spec.network.vpc_id;
        subnet = cp.spec.network.subnet_id;
        mode = mode;
        cidrs = container_cidrs network.pods;
        kubernetes_svc_ip_range = service_ip_range env.formats.ranges_string network.services;
        enterprise_project_id = project cp;
        alpha_cce_fix_pool_mask = fix_pool_mask env.enums mode;
      }
