-- ===== src/Kubeconfig/Errors.antt =====
-- Which errors reconcileKubeconfig of pkg/cloud/services/cce/config.go returns.
use cluster_api_provider_cce.Prelude.{String, ◌≡◌, refl, true, List, ◌∷◌}
use cluster_api_provider_cce.Errors.{Error, Result, ok, err, wrapped, wrapped_nil}
use cluster_api_provider_cce.Go.{State, fail, raise, attempt, catch, if◌then◌else◌, ◌>>=◌}
use cluster_api_provider_cce.Env.{Env}
use cluster_api_provider_cce.Call.{Call}
use cluster_api_provider_cce.Api.Meta.{NamespacedName, Cluster}
use cluster_api_provider_cce.Api.ControlPlane.{ControlPlane}
use cluster_api_provider_cce.Service.{Service}
use cluster_api_provider_cce.Kubeconfig.{
  create_capi_kubeconfig_secret, update_capi_kubeconfig_secret, store_kubeconfig,
  reconcile_kubeconfig,
}

-- The secret's key.
abbrev pub secret_of : Cluster → NamespacedName
secret_of cluster = record { namespace = cluster.meta.namespace; name = cluster.meta.name }

module _ {W C : Type 0} (env : Env W C) (cluster : Cluster) (svc : Service W)
    (s : State W (Call C) (ControlPlane C)) where
  -- The state after the secret was read.
  abbrev pub looked : State W (Call C) (ControlPlane C)
  looked = record s {
    world = (env.kube.get_kubeconfig_secret (secret_of cluster) s.world).1;
    trace = Call.get_kubeconfig_secret (secret_of cluster) ∷ s.trace;
  }

  -- The secret is there and cannot be updated, or it is not there and cannot be created.
  abbrev pub StoreFails : Error → Result (List (String × String)) → Type 0
  StoreFails x (ok secret) = (update_capi_kubeconfig_secret env svc secret looked).0 ≡ fail x
  StoreFails x (err e) =
      (env.kube.is_not_found e ≡ true)
      × ((create_capi_kubeconfig_secret env svc (secret_of cluster) looked).0 ≡ fail x)

  -- The error that is returned: about no error where the secret is there, and otherwise about the read
  -- that did not find it.
  abbrev pub masked : Result (List (String × String)) → Error
  masked (ok secret) = wrapped_nil "updating kubeconfig secret"
  masked (err e) = wrapped "creating kubeconfig secret" e

  -- Where the secret cannot be stored, the error that reconcileKubeconfig returns does not tell why: it is
  -- made of what the read gave alone, whatever the failure `x` is.
  pub kubeconfig-masks :
      (x : Error) (read : Result (List (String × String)))
      → (env.kube.get_kubeconfig_secret (secret_of cluster) s.world).0 ≡ read
      → StoreFails x read
      → (reconcile_kubeconfig env cluster svc s).0 ≡ fail (masked read)
  unfolding reconcile_kubeconfig store_kubeconfig if◌then◌else◌ attempt catch raise ◌>>=◌
  kubeconfig-masks x (ok secret) r u = rw (r, u) refl
  kubeconfig-masks x (err e) r (n, c) = rw (r, n, c) refl
