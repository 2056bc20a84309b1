-- ===== src/Kubeconfig/Frame.antt =====
-- What reconcileKubeconfig leaves behind.
use cluster_api_provider_cce.Prelude.{
  String, ◌≡◌, refl, ap, Option, none, some, List, [], ◌∷◌, lookup,
}
use cluster_api_provider_cce.Errors.{Result, ok, err}
use cluster_api_provider_cce.Go.{emit, modify, State, call}
use cluster_api_provider_cce.Go.Keeps.{Keeps, Keeps-call, Keeps-emit, Keeps-attempt, keeps_rules}
use cluster_api_provider_cce.Go.Returns.{Returns, then-Returns}
use cluster_api_provider_cce.Env.{Env}
use cluster_api_provider_cce.Call.{Call}
use cluster_api_provider_cce.Sdk.{CertUser}
use cluster_api_provider_cce.Api.Meta.{NamespacedName, Cluster}
use cluster_api_provider_cce.Api.ControlPlane.{ControlPlane}
use cluster_api_provider_cce.Scope.ControlPlane.{scope_infra_cluster_id}
use cluster_api_provider_cce.Service.{Service}
use cluster_api_provider_cce.Kubeconfig.{
  lift, first_user, generate_client_data, create_base_kubeconfig, create_capi_kubeconfig_secret,
  update_text, update_capi_kubeconfig_secret, store_kubeconfig, reconcile_kubeconfig,
  with_initialized, kubeconfig_data_name,
}

module _ {W C : Type 0} (env : Env W C) (svc : Service W) (cp : ControlPlane C) where
  abbrev pub Same : State W (Call C) (ControlPlane C) → Type 0
  Same s = s.obj ≡ cp

  call-Same : {A : Type 0} (c : Call C) (f : W → Result A × W) → Keeps Same (call c f)
  call-Same c f = Keeps-call c f (λ s w h. h)

  lift-Same : {A : Type 0} (r : Result A) → Keeps Same (lift r)
  unfolding lift
  lift-Same r = record { at = λ s h. h }

  emit-Same : (c : Call C) → Keeps Same (emit c)
  emit-Same c = Keeps-emit c (λ s h. h)

  user-Same : (users : List (Option CertUser)) → Keeps Same (first_user env svc users)
  unfolding first_user
  user-Same [] = search keeps_rules
  user-Same (user ∷ users) = search keeps_rules

  pub data-Same : Keeps Same (generate_client_data env svc)
  unfolding generate_client_data scope_infra_cluster_id
  data-Same = search (keeps_rules, call-Same, lift-Same, user-Same) depth 12

  create-Same : (r : NamespacedName) → Keeps Same (create_capi_kubeconfig_secret env svc r)
  unfolding create_capi_kubeconfig_secret create_base_kubeconfig
  create-Same r = search (keeps_rules, call-Same, lift-Same, data-Same, emit-Same) depth 9

  text-Same :
      (secret : List (String × String)) (text : Option String)
      → Keeps Same (update_text env svc secret text)
  unfolding update_text
  text-Same secret none = search keeps_rules
  text-Same secret (some text) = search (keeps_rules, call-Same, lift-Same, data-Same) depth 14

  update-Same :
      (secret : List (String × String)) → Keeps Same (update_capi_kubeconfig_secret env svc secret)
  unfolding update_capi_kubeconfig_secret
  update-Same secret = text-Same secret (lookup kubeconfig_data_name secret)

  store-Same :
      (cluster : Cluster) (r : NamespacedName) (found : Result (List (String × String)))
      → Keeps Same (store_kubeconfig env cluster svc r found)
  unfolding store_kubeconfig
  store-Same cluster r (ok secret) = search (keeps_rules, update-Same) depth 7
  store-Same cluster r (err e) = search (keeps_rules, create-Same) depth 7

-- reconcileKubeconfig marks the control plane as initialised where it returns, and changes nothing else;
-- where it fails or panics, the control plane is as it was.
pub kubeconfig-Returns :
    {W C : Type 0} (env : Env W C) (cluster : Cluster) (svc : Service W)
    (s : State W (Call C) (ControlPlane C))
    → Returns
        (λ (u : Unit {0}) o. o ≡ with_initialized s.obj)
        (λ o. o ≡ s.obj)
        (reconcile_kubeconfig env cluster svc s)
unfolding reconcile_kubeconfig modify
kubeconfig-Returns env cluster svc s =
    let K = λ (u : Unit {0}) (o : ControlPlane _). o ≡ with_initialized s.obj in
    then-Returns K (λ o. o ≡ s.obj) _ _ (Keeps-attempt _ (call-Same env svc s.obj _ _))
      (λ found.
        then-Returns K (λ o. o ≡ s.obj) _ _ (store-Same env svc s.obj cluster _ found)
          (λ u t h. ap with_initialized h))
      s refl
