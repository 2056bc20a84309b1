-- ===== src/Network/Order.antt =====
-- The order in which ReconcileNetwork changes the cloud.
use cluster_api_provider_cce.Prelude.{ℕ, Bool, String, refl, List, [], ◌∷◌, arith}
use cluster_api_provider_cce.Errors.{Error}
use cluster_api_provider_cce.Go.{unless, wrap, ◌>>◌}
use cluster_api_provider_cce.Go.Keeps.{
  Keeps, Keeps-get_obj, Keeps-deref, Keeps-wrap, Keeps-pure, Keeps-raise, Keeps-bind, Keeps-then,
  Keeps-unless, Keeps-if, keeps_rules,
}
use cluster_api_provider_cce.Go.Ranks.{
  Upto-sample, Upto-modify, Goes-keep, Goes-call, Goes-catch, Goes-wrap, Goes-when, Goes-bind,
  Goes-after, Goes-before,
}
use cluster_api_provider_cce.Env.{Env, Severity}
use cluster_api_provider_cce.Call.{Call}
use cluster_api_provider_cce.Api.Meta.{Cluster}
use cluster_api_provider_cce.Scope.ControlPlane.{mark_false, patch_object}
use cluster_api_provider_cce.Service.{Service}
use cluster_api_provider_cce.Cluster.Frame.{mark_true-Keeps, mark_false-Keeps, patch-Keeps}
use cluster_api_provider_cce.Cluster.Ranks.{quiet, Steps, Under, call-quiet}
use cluster_api_provider_cce.Network.{
  generate_name, error_condition_after_init, create_vpc, reconcile_vpc, list_subnets, first_subnet,
  adopt_subnet, create_subnet, reconcile_subnets, network_failed, reconcile_network,
}

module _ {W C : Type 0} (before : List (Call C)) (env : Env W C) (cluster : Cluster)
    (svc : Service W) where
  name-quiet : (n : ℕ) (base : String) → Keeps (Under before n) (generate_name env base)
  unfolding generate_name
  name-quiet n base = Keeps-bind _ _ (Upto-sample n _) (λ r. Keeps-pure _)

  -- The condition that is marked where the conditions have none yet.
  marked-quiet :
      (n : ℕ) (b : Bool) (t r : String)
      → Keeps (Under before n) (
          unless b (
            mark_false env t r Severity.info ""
            >> wrap "failed to patch conditions" (patch_object env)))
  marked-quiet n b t r = Keeps-unless _ _ (λ _.
      Keeps-then _ _ (mark_false-Keeps (quiet before n) env _ _ _ _)
        (Keeps-wrap _ _ (patch-Keeps (quiet before n) env)))

  create_vpc-Steps : Steps before 0 1 (create_vpc env cluster svc)
  unfolding create_vpc
  create_vpc-Steps = Goes-after 0 1 (name-quiet 0 _) (omega arith) (λ name.
      Goes-after 0 1 Keeps-get_obj (omega arith) (λ cp.
        Goes-before 0 1 (Goes-wrap 0 1 _ _ (Goes-call 0 0 _ _ refl (omega arith)))
          (λ vpc. Keeps-deref vpc)))

  vpc-Steps : Steps before 0 1 (reconcile_vpc env cluster svc)
  unfolding reconcile_vpc
  vpc-Steps = Goes-after 0 1 Keeps-get_obj (omega arith) (λ cp.
      Goes-when 0 1 _ _
        (Goes-after 0 1 (marked-quiet 0 _ _ _) (omega arith)
          (λ _. Goes-before 0 1 (Goes-wrap 0 1 _ _ create_vpc-Steps) (λ id. Upto-modify 1 _)))
        (omega arith))

  first-quiet :
      (n : ℕ) (ids : List String) → Keeps (Under before n) (first_subnet env cluster svc ids)
  unfolding first_subnet
  first-quiet n [] = search keeps_rules
  first-quiet n (id ∷ ids) = search keeps_rules

  adopt-quiet :
      (n : ℕ) (id : String) (e : Error) → Keeps (Under before n) (adopt_subnet env cluster svc id e)
  unfolding adopt_subnet list_subnets
  adopt-quiet n id e =
      Keeps-if _ _ _
        (λ _.
          Keeps-bind _ _ (Keeps-wrap _ _ (call-quiet before n _ _ tt))
            (λ r. Keeps-bind _ _ (Keeps-deref r) (λ ids. first-quiet n ids)))
        (λ _. Keeps-raise _)

  create_subnet-Steps : Steps before 1 2 (create_subnet env cluster svc)
  unfolding create_subnet
  create_subnet-Steps = Goes-after 1 2 (name-quiet 1 _) (omega arith) (λ name.
      Goes-after 1 2 Keeps-get_obj (omega arith) (λ cp.
        Goes-catch 1 2 2 _ _
          (Goes-before 1 2 (Goes-call 1 1 _ _ refl (omega arith)) (λ r. Keeps-deref r))
          (λ e. Goes-keep 2 (adopt-quiet 2 _ e)) (omega arith)))

  subnets-Steps : Steps before 1 2 (reconcile_subnets env cluster svc)
  unfolding reconcile_subnets
  subnets-Steps = Goes-after 1 2 Keeps-get_obj (omega arith) (λ cp.
      Goes-when 1 2 _ _
        (Goes-after 1 2 (marked-quiet 1 _ _ _) (omega arith)
          (λ _. Goes-before 1 2 (Goes-wrap 1 2 _ _ create_subnet-Steps) (λ id. Upto-modify 2 _)))
        (omega arith))

  failed-quiet :
      (n : ℕ) (t r : String) (e : Error)
      → Keeps (Under before n) (network_failed env cluster svc t r e)
  unfolding network_failed error_condition_after_init
  failed-quiet n t r e = search (keeps_rules, mark_false-Keeps (quiet before n) env) depth 9

  pub network-Steps : Steps before 0 2 (reconcile_network env cluster svc)
  unfolding reconcile_network
  network-Steps =
      Goes-bind 0 1 2
        (Goes-catch 0 1 1 _ _ vpc-Steps (λ e. Goes-keep 1 (failed-quiet 1 _ _ e)) (omega arith))
        (λ _. Goes-after 1 2 (mark_true-Keeps (quiet before 1) env _) (omega arith) (λ _.
          Goes-before 1 2
            (Goes-catch 1 2 2 _ _ subnets-Steps (λ e. Goes-keep 2 (failed-quiet 2 _ _ e))
              (omega arith))
            (λ _. mark_true-Keeps (quiet before 2) env _)))
        (omega arith)
