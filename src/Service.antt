-- ===== src/Service.antt =====
-- pkg/cloud/services/cce/service.go: the services' clients, polling, and the endpoint's address.
pub mod Wait
pub mod Address
use cluster_api_provider_cce.Prelude.{String, Option, List, [], ◌∷◌, get_or, lookup}
use cluster_api_provider_cce.Go.{M, pure, get_obj, deref, call, sample, ◌>>=◌, ◌>>◌}
use cluster_api_provider_cce.Env.{Env}
use cluster_api_provider_cce.Call.{Call, CpM}
use cluster_api_provider_cce.Sdk.{CceClient, EipClient, VpcClient}
use cluster_api_provider_cce.Api.Meta.{NamespacedName}
use cluster_api_provider_cce.Api.ControlPlane.{ControlPlane}

-- Service, less its scope
pub record Service (W : Type 0) : Type 0 where
  pub cce : CceClient W
  pub eip : EipClient W
  pub vpc : VpcClient W

abbrev pub access_key : List (String × String) → String
access_key sec = get_or "" (lookup "accessKey" sec)

abbrev pub secret_key : List (String × String) → String
secret_key sec = get_or "" (lookup "secretKey" sec)

unfoldable pub apply_opts : {W : Type 0} → List (Service W → Service W) → Service W → Service W
apply_opts [] s = s
apply_opts (opt ∷ opts) s = apply_opts opts (opt s)

-- Build of a client's builder, with ValueOf of its region: what fails in them panics.
unfoldable pub build : {W E O A : Type 0} → (W → Option A × W) → M W E O A
build make = do client ← sample make; deref client

module _ {W C : Type 0} (env : Env W C) where
  -- The secret that both services read: named by the control plane, in the control plane's namespace.
  unfoldable pub get_credentials :
      {O : Type 0} → ControlPlane C → M W (Call C) O (List (String × String))
  get_credentials cp = do
    ref ← deref cp.spec.identity_ref
    let key : NamespacedName = record { namespace = cp.meta.namespace; name = ref.name }
    call (Call.get_secret key) (env.kube.get_secret key)

  unfoldable pub new_service : List (Service W → Service W) → CpM W C (Service W)
  new_service opts = do
    cp ← get_obj
    sec ← get_credentials cp
    cce ← build (env.new_cce_client cp.spec.region (access_key sec) (secret_key sec))
    eip ← build (env.new_eip_client cp.spec.region (access_key sec) (secret_key sec))
    vpc ← build (env.new_vpc_client cp.spec.region (access_key sec) (secret_key sec))
    pure (apply_opts opts (record { cce = cce; eip = eip; vpc = vpc }))

  unfoldable pub new_nodepool_service : {O : Type 0} → ControlPlane C → M W (Call C) O (CceClient W)
  new_nodepool_service cp = do
    sec ← get_credentials cp
    build (env.new_cce_client cp.spec.region (access_key sec) (secret_key sec))
