-- ===== src/Kubeconfig/Laws.antt =====
-- createCAPIKubeconfigSecret and updateCAPIKubeconfigSecret of pkg/cloud/services/cce/config.go, one after the
-- other.
use cluster_api_provider_cce.Prelude.{
  arith, eq_self, sym, ap, ◌∙◌, String, ◌<>◌, ◌≡◌, refl, true, some, List, ◌∷◌, lookup, insert,
}
use cluster_api_provider_cce.Errors.{ok}
use cluster_api_provider_cce.Go.{State, Outcome, ret, deref, wrap, catch, ◌>>=◌}
use cluster_api_provider_cce.Env.{Env, AuthInfo, KubeConfig, ConfigCluster, ConfigContext}
use cluster_api_provider_cce.Call.{Call}
use cluster_api_provider_cce.Api.Meta.{NamespacedName}
use cluster_api_provider_cce.Api.ControlPlane.{ControlPlane}
use cluster_api_provider_cce.Service.{Service}
use cluster_api_provider_cce.Kubeconfig.{
  kubeconfig_data_name, kubeconfig_user_name, lift, generate_client_data, base_kubeconfig,
  create_base_kubeconfig, create_capi_kubeconfig_secret, with_client_data, update_text,
  update_capi_kubeconfig_secret,
}
use cluster_api_provider_cce.Kubeconfig.Frame.{data-Same}

-- clientcmd.Load reads the kubeconfig back from what clientcmd.Write has written of it.
abbrev pub Loads : {W C : Type 0} → Env W C → KubeConfig → Type 0
Loads env config =
    (text : String)
    → env.formats.config_write config ≡ ok text
    → env.formats.config_load text ≡ ok config

-- The current context of a kubeconfig joins the control plane's server and the user of `client`.
pub record Serves {W C : Type 0} (env : Env W C) (cp : ControlPlane C) (client : AuthInfo)
    (config : KubeConfig) : Type 0 where
  pub context : ConfigContext
  pub server : ConfigCluster
  pub has_context : lookup config.current_context config.contexts ≡ some context
  pub has_cluster : lookup context.cluster config.clusters ≡ some server
  pub has_user : lookup context.auth_info config.auth_infos ≡ some (some client)
  pub has_server :
      server.server ≡ ("https://" <> env.formats.endpoint_string cp.spec.control_plane_endpoint)

module _ {W C : Type 0} (env : Env W C) (svc : Service W) where
  -- The kubeconfig that is created for the control plane's own user.
  abbrev pub admin_config : ControlPlane C → AuthInfo → KubeConfig
  admin_config cp = base_kubeconfig env svc cp (cp.meta.name <> "-capi-admin")

  admin-Serves :
      (cp : ControlPlane C) (client : AuthInfo) → Serves env cp client (admin_config cp client)
  unfolding base_kubeconfig lookup
  admin-Serves cp client = record {
    context = record { cluster = cp.meta.name; auth_info = cp.meta.name <> "-capi-admin" };
    server = record {
      server = "https://" <> env.formats.endpoint_string cp.spec.control_plane_endpoint;
      insecure_skip_tls_verify = true;
    };
    has_context = rw (eq_self ((cp.meta.name <> "-capi-admin") <> "@" <> cp.meta.name)) refl;
    has_cluster = rw (eq_self cp.meta.name) refl;
    has_user = rw (eq_self (cp.meta.name <> "-capi-admin")) refl;
    has_server = refl;
  }

  with_client_data-base :
      (cp : ControlPlane C) (user_name : String) (old new : AuthInfo)
      → with_client_data env svc user_name new (base_kubeconfig env svc cp user_name old)
        ≡ some (base_kubeconfig env svc cp user_name new)
  unfolding with_client_data base_kubeconfig lookup insert
  with_client_data-base cp user_name old new = ground (arith, eq_self user_name)

  module _ (ref : NamespacedName) (s t : State W (Call C) (ControlPlane C)) (old : AuthInfo)
      (text : String) (w : W) (gives : generate_client_data env svc s ≡ (ret old, t))
      (writes : env.formats.config_write (admin_config s.obj old) ≡ ok text)
      (accepts : env.kube.create_kubeconfig_secret ref text t.world ≡ (ok tt, w)) where
    -- The state after the creation.
    abbrev pub created : State W (Call C) (ControlPlane C)
    created = record t {
      world = w;
      trace =
          Call.event "SucessfulCreateKubeconfig"
          ∷ (Call.create_kubeconfig_secret ref text ∷ t.trace);
    }

    creates : create_capi_kubeconfig_secret env svc ref s ≡ (ret tt, created)
    unfolding create_capi_kubeconfig_secret create_base_kubeconfig kubeconfig_user_name lift wrap
        catch ◌>>=◌
    creates = rw (gives, writes, accepts) refl

    obj-same : t.obj ≡ s.obj
    obj-same =
        ap (λ (r : Outcome AuthInfo × State W (Call C) (ControlPlane C)). r.1.obj) (sym gives)
        ∙ (data-Same env svc s.obj).at s refl

    updates :
        (new : AuthInfo) (loads : Loads env (admin_config s.obj old))
        (u : State W (Call C) (ControlPlane C)) (secret : List (String × String)) (text' : String)
        (w' : W)
        → lookup kubeconfig_data_name secret ≡ some text
        → generate_client_data env svc created ≡ (ret new, u)
        → u.obj ≡ s.obj
        → env.formats.config_write (admin_config s.obj new) ≡ ok text'
        → env.kube.update_secret (insert kubeconfig_data_name text' secret) u.world ≡ (ok tt, w')
        → update_capi_kubeconfig_secret env svc secret created ≡ (
          ret tt,
          record u {
            world = w';
            trace = Call.update_secret (insert kubeconfig_data_name text' secret) ∷ u.trace;
          },
        )
    unfolding update_capi_kubeconfig_secret update_text kubeconfig_user_name lift deref wrap catch
        ◌>>=◌
    updates new loads u secret text' w' has g o h a =
        rw
          (
            has,
            loads text writes,
            g,
            o,
            with_client_data-base s.obj (s.obj.meta.name <> "-capi-admin") old new,
            h,
            a,
          )
          refl

    -- The secret's creation, and an update of the secret that then holds the text, with another client
    -- certificate, where clientcmd loads what it has written and nothing is refused: the creation writes
    -- the text as the secret, and the update replaces it, under the same key of the secret, by the text of
    -- the kubeconfig for the new certificate, which loads to a kubeconfig whose current context joins the
    -- control plane's server and a user with that certificate.
    pub update-create :
        (new : AuthInfo) (loads : Loads env (admin_config s.obj old))
        (reloads : Loads env (admin_config s.obj new)) (u : State W (Call C) (ControlPlane C))
        (secret : List (String × String)) (text' : String) (w' : W)
        → lookup kubeconfig_data_name secret ≡ some text
        → generate_client_data env svc created ≡ (ret new, u)
        → env.formats.config_write (admin_config s.obj new) ≡ ok text'
        → env.kube.update_secret (insert kubeconfig_data_name text' secret) u.world ≡ (ok tt, w')
        → (create_capi_kubeconfig_secret env svc ref s ≡ (ret tt, created))
          × ((update_capi_kubeconfig_secret env svc secret created ≡ (
            ret tt,
            record u {
              world = w';
              trace = Call.update_secret (insert kubeconfig_data_name text' secret) ∷ u.trace;
            },
          ))
              × ((config : KubeConfig) × (env.formats.config_load text' ≡ ok config)
                  × Serves env s.obj new config))
    update-create new loads reloads u secret text' w' has g h a =
        let same : u.obj ≡ s.obj =
          ap (λ (r : Outcome AuthInfo × State W (Call C) (ControlPlane C)). r.1.obj) (sym g)
          ∙ (data-Same env svc s.obj).at created obj-same in
        (
          creates,
          (
            updates new loads u secret text' w' has g same h a,
            (admin_config s.obj new, reloads text' h, admin-Serves s.obj new),
          ),
        )
