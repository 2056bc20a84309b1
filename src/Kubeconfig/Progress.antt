-- ===== src/Kubeconfig/Progress.antt =====
-- A kubeconfig that is not there yet is stored, where the cloud and the API server do their part:
-- pkg/cloud/services/cce/config.go.
use cluster_api_provider_cce.Prelude.{String, ◌≡◌, refl, true, ◌*◌, some, [], ◌∷◌}
use cluster_api_provider_cce.Errors.{Error, ok, err}
use cluster_api_provider_cce.Go.{
  State, Outcome, ret, fail, panic, if◌then◌else◌, deref, wrap, catch, attempt, ◌>>=◌,
}
use cluster_api_provider_cce.Go.Returns.{Returns}
use cluster_api_provider_cce.Env.{Env, KubeConfig}
use cluster_api_provider_cce.Call.{Call}
use cluster_api_provider_cce.Api.Meta.{Cluster, NamespacedName}
use cluster_api_provider_cce.Api.ControlPlane.{ControlPlane, infra_cluster_id}
use cluster_api_provider_cce.Scope.ControlPlane.{scope_infra_cluster_id}
use cluster_api_provider_cce.Service.{Service}
use cluster_api_provider_cce.Kubeconfig.{
  first_user, generate_client_data, create_base_kubeconfig, create_capi_kubeconfig_secret,
  store_kubeconfig, reconcile_kubeconfig, lift, with_initialized,
}
use cluster_api_provider_cce.Kubeconfig.Frame.{kubeconfig-Returns}

-- A cloud and an API server whose answers do not change: the kubeconfig's secret is not there yet, a
-- certificate is given, and the secret is accepted.
pub record Certifies {W C : Type 0} (env : Env W C) (cluster : Cluster) (svc : Service W)
    (id : String) : Type 0 where
  pub missing : Error
  pub certificate : String
  pub key : String
  pub cert_data : String
  pub key_data : String
  pub is_missing :
      (w : W)
      → (env.kube.get_kubeconfig_secret
          (record { namespace = cluster.meta.namespace; name = cluster.meta.name })
          w).0
        ≡ err missing
  pub is_not_found : env.kube.is_not_found missing ≡ true
  pub certifies :
      (w : W)
      → (svc.cce.create_cert id (10 * 365) w).0
        ≡ ok (
            some (
              some
                (record { client_certificate_data = some certificate; client_key_data = some key })
              ∷ []))
  pub decodes_certificate : env.formats.base64_decode certificate ≡ ok cert_data
  pub decodes_key : env.formats.base64_decode key ≡ ok key_data
  pub writes : (config : KubeConfig) → (text : String) × (env.formats.config_write config ≡ ok text)
  pub stores :
      (key : NamespacedName) (text : String) (w : W)
      → (env.kube.create_kubeconfig_secret key text w).0 ≡ ok tt

module _ {W C : Type 0} (env : Env W C) (cluster : Cluster) (svc : Service W) where
  creates :
      (s : State W (Call C) (ControlPlane C)) (ref : NamespacedName)
      → Certifies env cluster svc (infra_cluster_id s.obj)
      → (create_capi_kubeconfig_secret env svc ref s).0 ≡ ret tt
  unfolding create_capi_kubeconfig_secret create_base_kubeconfig generate_client_data first_user
      lift scope_infra_cluster_id wrap catch ◌>>=◌
  creates s ref c =
      rw (c.certifies, deref, c.decodes_certificate, c.decodes_key, (c.writes _).1, c.stores) refl

  stored :
      (s : State W (Call C) (ControlPlane C))
      → Certifies env cluster svc (infra_cluster_id s.obj)
      → (reconcile_kubeconfig env cluster svc s).0 ≡ ret tt
  unfolding reconcile_kubeconfig store_kubeconfig if◌then◌else◌ attempt catch ◌>>=◌
  stored s c =
      let ref : NamespacedName = record {
        namespace = cluster.meta.namespace;
        name = cluster.meta.name;
      } in
      let t : State W (Call C) (ControlPlane C) = record s {
        world = (env.kube.get_kubeconfig_secret ref s.world).1;
        trace = Call.get_kubeconfig_secret ref ∷ s.trace;
      } in
      rw (c.is_missing, c.is_not_found, creates t ref c) refl

  initialised :
      (o : ControlPlane C) (r : Outcome (Unit {0}) × State W (Call C) (ControlPlane C))
      → Returns (λ (u : Unit {0}) p. p ≡ with_initialized o) (λ p. p ≡ o) r
      → r.0 ≡ ret tt
      → r.1.obj ≡ with_initialized o
  initialised o (ret u, t) h e = h
  initialised o (fail x, t) h e = cc
  initialised o (panic, t) h e = cc

  -- reconcileKubeconfig returns, and marks the control plane as initialised.
  pub kubeconfig-done :
      (s : State W (Call C) (ControlPlane C)) (msg : String)
      → Certifies env cluster svc (infra_cluster_id s.obj)
      → ((wrap msg (reconcile_kubeconfig env cluster svc) s).0 ≡ ret tt)
        × ((wrap msg (reconcile_kubeconfig env cluster svc) s).1.obj ≡ with_initialized s.obj)
  unfolding wrap catch
  kubeconfig-done s msg c =
      let r = stored s c in
      rw r (
        refl,
        initialised s.obj (reconcile_kubeconfig env cluster svc s)
            (kubeconfig-Returns env cluster svc s) r,
      )
