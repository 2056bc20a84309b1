-- ===== src/Cluster/Request/Laws.antt =====
-- What createCluster of pkg/cloud/services/cce/cluster.go asks for.
use cluster_api_provider_cce.Prelude.{
  String, ◌≡◌, refl, Bool, true, false, Option, inl, inr, none, some, List, [], ◌∷◌, ◌==◌,
  Bool-cases,
}
use cluster_api_provider_cce.Env.{Env}
use cluster_api_provider_cce.Sdk.{Enums, CreateClusterRequest}
use cluster_api_provider_cce.Api.Meta.{ClusterNetwork}
use cluster_api_provider_cce.Api.ControlPlane.{ControlPlane}
use cluster_api_provider_cce.Cluster.Request.{
  default_container_cidr, container_network_mode, pod_blocks, or_default_cidr, container_cidrs,
  fix_pool_mask, cluster_request,
}

-- The two container network modes by the names that the SDK documents for them.
abbrev pub Documented : Enums → Type 0
Documented enums = (enums.vpc_router ≡ "vpc-router") × (enums.overlay_l2 ≡ "overlay_l2")

-- The VPC router's network, with the fixed pool mask, or the overlay's, without one.
abbrev pub HasMode : Bool → CreateClusterRequest → Type 0
HasMode true r = (r.mode ≡ "vpc-router") × (r.alpha_cce_fix_pool_mask ≡ some "25")
HasMode false r = (r.mode ≡ "overlay_l2") × (r.alpha_cce_fix_pool_mask ≡ none)

-- What the spec's mode asks for: nothing and the router's name ask for the router, and any other text
-- gets the overlay.
abbrev pub ModeFits : Option String → CreateClusterRequest → Type 0
ModeFits none r = HasMode true r
ModeFits (some mode) r = HasMode ("vpc-router" == mode) r

-- There is a range for the containers: those of the cluster, or else the default one.
abbrev pub CidrsFit : List String → List String → Type 0
CidrsFit [] cidrs = cidrs ≡ default_container_cidr ∷ []
CidrsFit (b ∷ bs) cidrs = cidrs ≡ b ∷ bs

cidrs-fit : (blocks : List String) → CidrsFit blocks (or_default_cidr blocks)
cidrs-fit [] = refl
cidrs-fit (b ∷ bs) = refl

module _ {W C : Type 0} (env : Env W C) (network : ClusterNetwork) (cp : ControlPlane C) where
  mode-fits :
      (mode : Option String)
      → cp.spec.network.mode ≡ mode
      → Documented env.enums
      → ModeFits mode (cluster_request env network cp)
  unfolding cluster_request container_network_mode fix_pool_mask
  mode-fits none m (v, o) = rw (m, v) (refl, refl)
  mode-fits (some mode) m (v, o) = elim (Bool-cases ("vpc-router" == mode)) [
    | inl e ↦ rw (m, v, o, e) (refl, refl)
    | inr e ↦ rw (m, v, o, e) (refl, refl)
  ]

  -- Where the SDK's two modes have their documented names: the request for a cluster has the router's
  -- mode and the fixed pool mask where the spec names no mode or "vpc-router", and the mode "overlay_l2"
  -- and no mask where it names any other, "eni" included; its container ranges are the cluster's pod
  -- ranges, or the default range where there is none.
  pub cluster_request-fits :
      Documented env.enums
      → ModeFits cp.spec.network.mode (cluster_request env network cp)
        × CidrsFit (pod_blocks network.pods) (cluster_request env network cp).cidrs
  unfolding cluster_request container_cidrs
  cluster_request-fits d =
      (mode-fits cp.spec.network.mode refl d, cidrs-fit (pod_blocks network.pods))
