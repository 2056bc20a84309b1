-- ===== src/Cluster/Order.antt =====
-- The order in which ReconcileControlPlane of pkg/cloud/services/cce/cluster.go, with eip.go and
-- config.go, changes the cloud.
use cluster_api_provider_cce.Prelude.{String, refl, Option, none, some, List, [], ◌∷◌, arith}
use cluster_api_provider_cce.Errors.{Result, ok, err}
use cluster_api_provider_cce.Go.Keeps.{
  Keeps, Keeps-get_obj, Keeps-deref, Keeps-wrap, Keeps-pure, Keeps-raise, Keeps-attempt,
  keeps_rules,
}
use cluster_api_provider_cce.Go.Ranks.{
  Upto-modify, Goes-keep, Goes-from, Goes-call, Goes-catch, Goes-wrap, Goes-if, Goes-when,
  Goes-bind, Goes-after, Goes-before,
}
use cluster_api_provider_cce.Env.{Env}
use cluster_api_provider_cce.Call.{Call}
use cluster_api_provider_cce.Sdk.{CertUser, ShowClusterResponse}
use cluster_api_provider_cce.Api.Meta.{NamespacedName, Cluster}
use cluster_api_provider_cce.Scope.ControlPlane.{scope_infra_cluster_id}
use cluster_api_provider_cce.Service.{Service}
use cluster_api_provider_cce.Eip.{with_eip_id, create_and_bind_eip, reconcile_eip}
use cluster_api_provider_cce.Kubeconfig.{
  first_user, generate_client_data, create_base_kubeconfig, create_capi_kubeconfig_secret,
  update_text, update_capi_kubeconfig_secret, store_kubeconfig, reconcile_kubeconfig,
}
use cluster_api_provider_cce.Cluster.Ranks.{quiet, Steps, Under, call-quiet, emit-quiet}
use cluster_api_provider_cce.Cluster.Frame.{
  lift-Keeps, id-Keeps, mark_true-Keeps, choose-Keeps, status-Keeps, show-Keeps, find-Keeps,
  busy-Keeps, read-Keeps, failed-Keeps,
}
use cluster_api_provider_cce.Cluster.Create.{create_cluster}
use cluster_api_provider_cce.Cluster.Reconcile.{
  status_or_create, reconcile_public_access, reconcile_ready, reconcile_cluster,
  reconcile_control_plane,
}

module _ {W C : Type 0} (before : List (Call C)) where
  module _ (env : Env W C) (svc : Service W) where
    bind-Steps : Steps before 3 5 (create_and_bind_eip env svc)
    unfolding create_and_bind_eip scope_infra_cluster_id with_eip_id
    bind-Steps = Goes-after 3 5 Keeps-get_obj (omega arith) (λ cp.
        Goes-bind 3 4 5 (Goes-wrap 3 4 _ _ (Goes-call 3 3 _ _ refl (omega arith)))
          (λ r. Goes-after 4 5 (Keeps-deref r) (omega arith) (λ ip.
            Goes-after 4 5 (Upto-modify 4 _) (omega arith) (λ _.
              Goes-after 4 5 (search keeps_rules) (omega arith)
                (λ id. Goes-wrap 4 5 _ _ (Goes-call 4 4 _ _ refl (omega arith))))))
          (omega arith))

    eip-Steps : Steps before 3 5 (reconcile_eip env svc)
    unfolding reconcile_eip scope_infra_cluster_id
    eip-Steps = Goes-after 3 5 (search keeps_rules) (omega arith) (λ id.
        Goes-after 3 5 (Keeps-wrap _ _ (call-quiet before 3 _ _ tt)) (omega arith) (λ r.
          Goes-after 3 5 (Keeps-deref r) (omega arith) (λ e.
            Goes-if 3 5 _ _ _ (Goes-from 3 3 5 (Goes-keep 3 (Keeps-pure tt)) (omega arith))
              bind-Steps)))

    user-quiet :
        (users : List (Option CertUser)) → Keeps (Under before 6) (first_user env svc users)
    unfolding first_user
    user-quiet [] = search keeps_rules
    user-quiet (user ∷ users) = search keeps_rules

    data-Steps : Steps before 5 6 (generate_client_data env svc)
    unfolding generate_client_data scope_infra_cluster_id
    data-Steps = Goes-after 5 6 (search keeps_rules) (omega arith) (λ id.
        Goes-before 5 6 (Goes-wrap 5 6 _ _ (Goes-call 5 5 _ _ refl (omega arith)))
          (λ r. search (keeps_rules, lift-Keeps (quiet before 6), user-quiet) depth 12))

    create_secret-Steps :
        (r : NamespacedName) → Steps before 5 8 (create_capi_kubeconfig_secret env svc r)
    unfolding create_capi_kubeconfig_secret create_base_kubeconfig
    create_secret-Steps r = Goes-after 5 8 Keeps-get_obj (omega arith) (λ cp.
        Goes-bind 5 6 8
          (Goes-wrap 5 6 _ _ (
            Goes-after 5 6 Keeps-get_obj (omega arith)
              (λ _. Goes-before 5 6 data-Steps (λ d. Keeps-pure _))))
          (λ config.
            Goes-after 6 8 (Keeps-wrap _ _ (lift-Keeps (quiet before 6) _)) (omega arith) (λ out.
              Goes-bind 6 7 8 (Goes-wrap 6 7 _ _ (Goes-call 6 6 _ _ refl (omega arith)))
                (λ _. Goes-from 7 7 8 (Goes-keep 7 (emit-quiet before 7 _)) (omega arith))
                (omega arith)))
          (omega arith))

    update-Steps :
        (secret : List (String × String)) (text : Option String)
        → Steps before 5 8 (update_text env svc secret text)
    unfolding update_text
    update-Steps secret none = Goes-from 5 5 8 (Goes-keep 5 (Keeps-raise _)) (omega arith)
    update-Steps secret (some text) =
        Goes-after 5 8 (Keeps-wrap _ _ (lift-Keeps (quiet before 5) _)) (omega arith) (λ config.
          Goes-bind 5 6 8 data-Steps
            (λ d. Goes-after 6 8 Keeps-get_obj (omega arith) (λ cp.
              Goes-after 6 8 (Keeps-deref _) (omega arith) (λ config'.
                Goes-after 6 8 (Keeps-wrap _ _ (lift-Keeps (quiet before 6) _)) (omega arith)
                  (λ out. Goes-wrap 6 8 _ _ (Goes-call 6 7 _ _ refl (omega arith))))))
            (omega arith))

    module _ (cluster : Cluster) where
      store-Steps :
          (r : NamespacedName) (found : Result (List (String × String)))
          → Steps before 5 8 (store_kubeconfig env cluster svc r found)
      unfolding store_kubeconfig update_capi_kubeconfig_secret
      store-Steps r (ok secret) =
          Goes-catch 5 8 8 _ _ (update-Steps secret _) (λ e. Goes-keep 8 (Keeps-raise _))
            (omega arith)
      store-Steps r (err e) =
          Goes-if 5 8 _ _ _
            (Goes-catch 5 8 8 _ _ (create_secret-Steps r) (λ e. Goes-keep 8 (Keeps-raise _))
              (omega arith))
            (Goes-from 5 5 8 (Goes-keep 5 (Keeps-raise _)) (omega arith))

      kubeconfig-Steps : Steps before 5 8 (reconcile_kubeconfig env cluster svc)
      unfolding reconcile_kubeconfig
      kubeconfig-Steps =
          Goes-after 5 8 (Keeps-attempt _ (call-quiet before 5 _ _ tt)) (omega arith)
            (λ found. Goes-before 5 8 (store-Steps _ found) (λ _. Upto-modify 8 _))

      create-Steps : Steps before 2 3 (create_cluster env svc cluster)
      unfolding create_cluster
      create-Steps = Goes-after 2 3 (Keeps-deref _) (omega arith) (λ network.
          Goes-after 2 3 Keeps-get_obj (omega arith) (λ cp.
            Goes-before 2 3 (Goes-wrap 2 3 _ _ (Goes-call 2 2 _ _ refl (omega arith))) (λ r.
              search (keeps_rules, id-Keeps (quiet before 3), mark_true-Keeps (quiet before 3) env)
                depth 9)))

      made-Steps :
          (found : Option ShowClusterResponse)
          → Steps before 2 3 (status_or_create env cluster svc found)
      unfolding status_or_create
      made-Steps none = Goes-before 2 3 (Goes-wrap 2 3 _ _ create-Steps) (λ r. Keeps-pure _)
      made-Steps (some r) = Goes-from 2 2 3 (Goes-keep 2 (Keeps-pure _)) (omega arith)

      access-Steps : Steps before 3 5 (reconcile_public_access env cluster svc)
      unfolding reconcile_public_access
      access-Steps = Goes-after 3 5 Keeps-get_obj (omega arith) (λ cp.
          Goes-after 3 5 (Keeps-deref _) (omega arith)
            (λ access. Goes-when 3 5 _ _ (Goes-wrap 3 5 _ _ eip-Steps) (omega arith)))

      ready-Steps :
          (found : Option ShowClusterResponse)
          → Steps before 3 8 (reconcile_ready env cluster svc found)
      unfolding reconcile_ready scope_infra_cluster_id
      ready-Steps found =
          Goes-after 3 8 (read-Keeps (quiet before 3) env svc cluster found) (omega arith) (λ _.
            Goes-bind 3 5 8 access-Steps
              (λ _. Goes-after 5 8 (search keeps_rules) (omega arith) (λ id.
                Goes-after 5 8 (Keeps-wrap _ _ (show-Keeps (quiet before 5) svc id)) (omega arith)
                  (λ shown. Goes-after 5 8 (Keeps-deref _) (omega arith) (λ r.
                    Goes-after 5 8 (Keeps-deref _) (omega arith) (λ st.
                      Goes-after 5 8 (choose-Keeps (quiet before 5) env _) (omega arith)
                        (λ _. Goes-wrap 5 8 _ _ kubeconfig-Steps))))))
              (omega arith))

      cluster-Steps : Steps before 2 8 (reconcile_cluster env cluster svc)
      unfolding reconcile_cluster
      cluster-Steps =
          Goes-after 2 8 (find-Keeps (quiet before 2) env svc cluster) (omega arith) (λ found.
            Goes-bind 2 3 8 (made-Steps found)
              (λ st.
                Goes-after 3 8 (Keeps-wrap _ _ (status-Keeps (quiet before 3) env st)) (omega arith)
                  (λ _.
                    Goes-after 3 8 (busy-Keeps (quiet before 3) env svc cluster found st)
                      (omega arith)
                      (λ active.
                        Goes-after 3 8 Keeps-get_obj (omega arith)
                          (λ cp. Goes-when 3 8 _ _ (ready-Steps active) (omega arith)))))
              (omega arith))

      pub control_plane-Steps : Steps before 2 8 (reconcile_control_plane env cluster svc)
      unfolding reconcile_control_plane
      control_plane-Steps =
          Goes-before 2 8
            (Goes-catch 2 8 8 _ _ cluster-Steps
              (λ e. Goes-keep 8 (failed-Keeps (quiet before 8) env svc cluster e)) (omega arith))
            (λ _. mark_true-Keeps (quiet before 8) env _)
