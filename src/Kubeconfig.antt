-- ===== src/Kubeconfig.antt =====
-- pkg/cloud/services/cce/config.go: the kubeconfig secret of a cluster.
pub mod Laws
pub mod Frame
pub mod Progress
pub mod Errors
use cluster_api_provider_cce.Prelude.{
  ◌*◌, String, ◌<>◌, Bool, true, false, Option, none, some, List, [], ◌∷◌, lookup, insert,
}
use cluster_api_provider_cce.Errors.{new, wrapped, wrapped_nil, Result, ok, err}
use cluster_api_provider_cce.Go.{
  if◌then◌else◌, M, pure, raise, crash, get_obj, modify, deref, call, emit, catch, wrap, attempt,
  ◌>>=◌, ◌>>◌, of_result,
}
use cluster_api_provider_cce.Env.{Env, AuthInfo, KubeConfig}
use cluster_api_provider_cce.Call.{Call, CpM}
use cluster_api_provider_cce.Sdk.{CertUser}
use cluster_api_provider_cce.Api.Meta.{NamespacedName, Cluster}
use cluster_api_provider_cce.Api.ControlPlane.{ControlPlane}
use cluster_api_provider_cce.Scope.ControlPlane.{scope_infra_cluster_id}
use cluster_api_provider_cce.Service.{Service}

-- secret.KubeconfigDataName, of cluster-api
abbrev pub kubeconfig_data_name : String
kubeconfig_data_name = "value"

-- getKubeConfigUserName
unfoldable pub kubeconfig_user_name : String → Bool → String
kubeconfig_user_name cluster_name true = cluster_name <> "-user"
kubeconfig_user_name cluster_name false = cluster_name <> "-capi-admin"

module _ {C : Type 0} where
  unfoldable pub with_initialized : ControlPlane C → ControlPlane C
  with_initialized cp = record cp { status = record cp.status { initialized = true } }

-- A library function that returns an error: nothing leaves the process.
unfoldable pub lift : {W E O A : Type 0} → Result A → M W E O A
lift r s = (of_result r, s)

module _ {W C : Type 0} (env : Env W C) (svc : Service W) where
  -- `(*certResp.Users)[0].User`
  unfoldable pub first_user : List (Option CertUser) → CpM W C CertUser
  first_user [] = crash
  first_user (user ∷ users) = deref user

  unfoldable pub generate_client_data : CpM W C AuthInfo
  generate_client_data = do
    id ← scope_infra_cluster_id
    response ←
        wrap "failed to create CCE cluster cert"
          (call (Call.create_cert id (10 * 365)) (svc.cce.create_cert id (10 * 365)))
    users ← deref response
    user ← first_user users
    certificate ← deref user.client_certificate_data
    cert_data ← wrap "decoding cluster client cert" (lift (env.formats.base64_decode certificate))
    key ← deref user.client_key_data
    key_data ← wrap "decoding cluster client key" (lift (env.formats.base64_decode key))
    pure (record { client_certificate_data = cert_data; client_key_data = key_data })

  -- createBaseKubeConfig, once the client's certificate is there
  unfoldable pub base_kubeconfig : ControlPlane C → String → AuthInfo → KubeConfig
  base_kubeconfig cp user_name client_data =
      let context_name = user_name <> "@" <> cp.meta.name in
      record {
        clusters =
            (
              cp.meta.name,
              record {
                server = "https://" <> env.formats.endpoint_string cp.spec.control_plane_endpoint;
                insecure_skip_tls_verify = true;
              },
            )
            ∷ [];
        contexts = (context_name, record { cluster = cp.meta.name; auth_info = user_name }) ∷ [];
        current_context = context_name;
        auth_infos = (user_name, some client_data) ∷ [];
      }

  unfoldable pub create_base_kubeconfig : String → CpM W C KubeConfig
  create_base_kubeconfig user_name = do
    cp ← get_obj
    client_data ← generate_client_data
    pure (base_kubeconfig cp user_name client_data)

  unfoldable pub create_capi_kubeconfig_secret : NamespacedName → CpM W C (Unit {0})
  create_capi_kubeconfig_secret cluster_ref = do
    cp ← get_obj
    config ←
        wrap "creating base kubeconfig"
          (create_base_kubeconfig (kubeconfig_user_name cp.meta.name false))
    out ← wrap "failed to serialize config to yaml" (lift (env.formats.config_write config))
    wrap "failed to create kubeconfig secret" (
        call (Call.create_kubeconfig_secret cluster_ref out)
          (env.kube.create_kubeconfig_secret cluster_ref out))
    emit (Call.event "SucessfulCreateKubeconfig")

  -- `config.AuthInfos[userName].… = …`: a write through the pointer, nil where the user is missing.
  unfoldable pub with_client_data : String → AuthInfo → KubeConfig → Option KubeConfig
  with_client_data user_name client_data config = elim (lookup user_name config.auth_infos) [
    | none ↦ none
    | some user ↦ elim user [
      | none ↦ none
      | some _ ↦
          some
            (record config { auth_infos = insert user_name (some client_data) config.auth_infos })
    ]
  ]

  -- The update, for the text under the secret's key.
  unfoldable pub update_text : List (String × String) → Option String → CpM W C (Unit {0})
  update_text secret none = raise (new "missing key \"value\" in secret data")
  update_text secret (some text) = do
    config ←
        wrap "failed to convert kubeconfig Secret into a clientcmdapi.Config"
          (lift (env.formats.config_load text))
    client_data ← generate_client_data
    cp ← get_obj
    config' ← deref (with_client_data (kubeconfig_user_name cp.meta.name false) client_data config)
    out ← wrap "failed to serialize config to yaml" (lift (env.formats.config_write config'))
    let secret' = insert kubeconfig_data_name out secret
    wrap "updating kubeconfig secret"
        (call (Call.update_secret secret') (env.kube.update_secret secret'))

  unfoldable pub update_capi_kubeconfig_secret : List (String × String) → CpM W C (Unit {0})
  update_capi_kubeconfig_secret secret = update_text secret (lookup kubeconfig_data_name secret)

module _ {W C : Type 0} (env : Env W C) (cluster : Cluster) (svc : Service W) where
  -- The secret is read first; both error paths wrap the error of that read, as the code does.
  unfoldable pub store_kubeconfig :
      NamespacedName → Result (List (String × String)) → CpM W C (Unit {0})
  store_kubeconfig cluster_ref (ok secret) =
      catch (update_capi_kubeconfig_secret env svc secret)
        (λ _. raise (wrapped_nil "updating kubeconfig secret"))
  store_kubeconfig cluster_ref (err e) =
      if env.kube.is_not_found e
      then catch (create_capi_kubeconfig_secret env svc cluster_ref)
          (λ _. raise (wrapped "creating kubeconfig secret" e))
      else raise (wrapped "failed to get kubeconfig secret" e)

  unfoldable pub reconcile_kubeconfig : CpM W C (Unit {0})
  reconcile_kubeconfig = do
    let cluster_ref : NamespacedName = record {
      namespace = cluster.meta.namespace;
      name = cluster.meta.name;
    }
    found ←
        attempt (
          call (Call.get_kubeconfig_secret cluster_ref)
            (env.kube.get_kubeconfig_secret cluster_ref))
    store_kubeconfig cluster_ref found
    modify with_initialized
