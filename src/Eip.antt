-- ===== src/Eip.antt =====
-- pkg/cloud/services/cce/eip.go: the public address of a cluster's endpoint.
pub mod Laws
use cluster_api_provider_cce.Prelude.{String, Bool, false, not, Option, none, some, ◌==◌, get_or}
use cluster_api_provider_cce.Go.{
  if◌then◌else◌, pure, get_obj, modify, deref, call, wrap, ◌>>=◌, ◌>>◌,
}
use cluster_api_provider_cce.Env.{Env}
use cluster_api_provider_cce.Call.{Call, CpM}
use cluster_api_provider_cce.Sdk.{CreatePublicipRequest}
use cluster_api_provider_cce.Api.ControlPlane.{ControlPlane}
use cluster_api_provider_cce.Scope.ControlPlane.{project, scope_infra_cluster_id}
use cluster_api_provider_cce.Service.{Service}

abbrev pub default_eip_type : String
default_eip_type = "5_bgp"

-- `PublicEndpoint != nil && *PublicEndpoint != ""`
unfoldable pub has_public_endpoint : Option String → Bool
has_public_endpoint none = false
has_public_endpoint (some endpoint) = not (endpoint == "")

module _ {C : Type 0} where
  unfoldable pub with_eip_id : String → ControlPlane C → ControlPlane C
  with_eip_id id cp = record cp { status = record cp.status { network = record { eip_id = id } } }

module _ {W C : Type 0} (env : Env W C) (svc : Service W) where
  unfoldable pub publicip_request : ControlPlane C → CreatePublicipRequest
  publicip_request cp = record {
    eip_type = default_eip_type;
    charge_mode = env.enums.traffic;
    bandwidth_name = cp.meta.name;
    share_type = env.enums.per;
    size = 100;
    enterprise_project_id = project cp;
  }

  unfoldable pub create_and_bind_eip : CpM W C (Unit {0})
  create_and_bind_eip = do
    cp ← get_obj
    let request = publicip_request cp
    response ←
        wrap "failed to create EIP"
          (call (Call.create_publicip request) (svc.eip.create_publicip request))
    publicip ← deref response
    modify (with_eip_id (get_or "" publicip))
    id ← scope_infra_cluster_id
    wrap "failed to bind EIP" (
        call (Call.update_cluster_eip id env.enums.bind publicip)
          (svc.cce.update_cluster_eip id env.enums.bind publicip))

  unfoldable pub reconcile_eip : CpM W C (Unit {0})
  reconcile_eip = do
    id ← scope_infra_cluster_id
    response ←
        wrap "failed to show cluster endpoint"
          (call (Call.show_cluster_endpoints id) (svc.cce.show_cluster_endpoints id))
    public_endpoint ← deref response
    if has_public_endpoint public_endpoint then pure tt else create_and_bind_eip
