-- ===== src/Cluster/Frame.antt =====
-- What the quiet parts of pkg/cloud/services/cce/cluster.go keep: those whose calls read, pause or
-- patch, and create or change nothing in the cloud.
use cluster_api_provider_cce.Prelude.{
  ℕ, String, ◌≡◌, refl, Bool, true, false, Option, none, some, List, [], ◌∷◌,
}
use cluster_api_provider_cce.Errors.{Error, Result}
use cluster_api_provider_cce.Go.{State, call, emit, modify}
use cluster_api_provider_cce.Go.Keeps.{
  Keeps, Keeps-bind, Keeps-deref, Keeps-then, Keeps-when, keeps_rules,
}
use cluster_api_provider_cce.Env.{Env, Severity}
use cluster_api_provider_cce.Call.{Call}
use cluster_api_provider_cce.Sdk.{ClusterStatus, ClusterEndpoint, ShowClusterResponse}
use cluster_api_provider_cce.Api.Meta.{Cluster, ApiEndpoint}
use cluster_api_provider_cce.Api.ControlPlane.{ControlPlane}
use cluster_api_provider_cce.Scope.ControlPlane.{
  with_infra_cluster_id, set_infra_cluster_id, scope_infra_cluster_id, set_conditions, patch_object,
  mark_true, mark_false,
}
use cluster_api_provider_cce.Service.{Service}
use cluster_api_provider_cce.Service.Wait.{poll_interval, wait_until}
use cluster_api_provider_cce.Service.Wait.Polls.{Keeps-wait_until}
use cluster_api_provider_cce.Kubeconfig.{lift}
use cluster_api_provider_cce.Cluster.Show.{missing_cluster, show_cce_cluster}
use cluster_api_provider_cce.Cluster.Status.{
  with_ready, with_failure, set_unavailable, set_available, apply_phase, set_status,
}
use cluster_api_provider_cce.Cluster.Create.{poll_active, wait_for_cluster_active}
use cluster_api_provider_cce.Cluster.Reconcile.{
  with_endpoint, set_endpoint, set_endpoints, choose_endpoint, find_cluster, wait_when,
  wait_if_busy, read_endpoints, control_plane_failed,
}

-- The calls that change nothing in the cloud nor in a secret.
abbrev pub IsQuiet : {C : Type 0} → Call C → Type 0
IsQuiet (Call.show_cluster id) = Unit {0}
IsQuiet (Call.show_cluster_endpoints id) = Unit {0}
IsQuiet (Call.list_subnets id) = Unit {0}
IsQuiet (Call.get_secret key) = Unit {0}
IsQuiet (Call.get_kubeconfig_secret key) = Unit {0}
IsQuiet (Call.patch_control_plane cp) = Unit {0}
IsQuiet (Call.event text) = Unit {0}
IsQuiet (Call.sleep n) = Unit {0}
IsQuiet _ = ⊥

-- A property of states that quiet calls keep, and edits of the object that leave its finalizers.
pub record Quiet {W C : Type 0} (P : State W (Call C) (ControlPlane C) → Type 0) : Type 1 where
  pub on_call : {A : Type 0} (c : Call C) (f : W → Result A × W) → IsQuiet c → Keeps P (call c f)
  pub on_emit : (c : Call C) → IsQuiet c → Keeps P (emit c)
  pub on_edit :
      (f : ControlPlane C → ControlPlane C)
      → ((o : ControlPlane C) → (f o).meta.finalizers ≡ o.meta.finalizers)
      → Keeps P (modify f)

module _ {W C : Type 0} {P : State W (Call C) (ControlPlane C) → Type 0} (q : Quiet P) where
  pub lift-Keeps : {A : Type 0} (r : Result A) → Keeps P (lift r)
  unfolding lift
  lift-Keeps r = record { at = λ s h. h }

  ready-Keeps : (b : Bool) → Keeps P (modify (with_ready b))
  unfolding with_ready
  ready-Keeps b = q.on_edit _ (λ o. refl)

  failure-Keeps : (f : Option String) → Keeps P (modify (with_failure f))
  unfolding with_failure
  failure-Keeps f = q.on_edit _ (λ o. refl)

  set-Keeps : (e : ApiEndpoint) → Keeps P (modify (with_endpoint e))
  unfolding with_endpoint
  set-Keeps e = q.on_edit _ (λ o. refl)

  pub id-Keeps : (id : String) → Keeps P (set_infra_cluster_id id)
  unfolding set_infra_cluster_id with_infra_cluster_id
  id-Keeps id = q.on_edit _ (λ o. refl)

  module _ (env : Env W C) where
    pub mark_true-Keeps : (t : String) → Keeps P (mark_true env t)
    unfolding mark_true set_conditions
    mark_true-Keeps t = q.on_edit _ (λ o. refl)

    pub mark_false-Keeps :
        (t r : String) (v : Severity) (m : String) → Keeps P (mark_false env t r v m)
    unfolding mark_false set_conditions
    mark_false-Keeps t r v m = q.on_edit _ (λ o. refl)

    patch_call-Keeps :
        (cp : ControlPlane C) (f : W → Result (Unit {0}) × W)
        → Keeps P (call (Call.patch_control_plane cp) f)
    patch_call-Keeps cp f = q.on_call _ _ tt

    pub patch-Keeps : Keeps P (patch_object env)
    unfolding patch_object
    patch-Keeps = search (keeps_rules, patch_call-Keeps)

    endpoint-Keeps : (ep : ClusterEndpoint) → Keeps P (set_endpoint env ep)
    unfolding set_endpoint
    endpoint-Keeps ep = search (keeps_rules, lift-Keeps, set-Keeps) depth 7

    endpoints-Keeps :
        (kind : String) (eps : List ClusterEndpoint) → Keeps P (set_endpoints env kind eps)
    unfolding set_endpoints
    endpoints-Keeps kind [] = search keeps_rules
    endpoints-Keeps kind (ep ∷ eps) =
        let rest = endpoints-Keeps kind eps in
        Keeps-bind _ _ (Keeps-deref ep.endpoint_type)
          (λ t. Keeps-then _ _ (Keeps-when _ _ (λ _. endpoint-Keeps ep)) rest)

    pub choose-Keeps : (eps : Option (List ClusterEndpoint)) → Keeps P (choose_endpoint env eps)
    unfolding choose_endpoint
    choose-Keeps none = search keeps_rules
    choose-Keeps (some eps) = search (keeps_rules, endpoints-Keeps)

    unavailable-Keeps : (status : ClusterStatus) → Keeps P (set_unavailable env status)
    unfolding set_unavailable
    unavailable-Keeps status = search (keeps_rules, ready-Keeps, failure-Keeps) depth 7

    event-Keeps : (text : String) → Keeps P (emit (Call.event text))
    event-Keeps text = q.on_emit _ tt

    available-Keeps : Keeps P (set_available env)
    unfolding set_available
    available-Keeps =
        search (keeps_rules, ready-Keeps, failure-Keeps, event-Keeps, mark_false-Keeps) depth 12

    phase-Keeps : (status : ClusterStatus) (phase : String) → Keeps P (apply_phase env status phase)
    unfolding apply_phase
    phase-Keeps status phase =
        search (keeps_rules, ready-Keeps, unavailable-Keeps, available-Keeps) depth 9

    pub status-Keeps : (status : Option ClusterStatus) → Keeps P (set_status env status)
    unfolding set_status
    status-Keeps status = search (keeps_rules, phase-Keeps, patch-Keeps) depth 7

  module _ (svc : Service W) where
    show_call-Keeps :
        (id : String) (f : W → Result ShowClusterResponse × W)
        → Keeps P (call (Call.show_cluster id) f)
    show_call-Keeps id f = q.on_call _ _ tt

    pub show-Keeps : (id : String) → Keeps P (show_cce_cluster svc id)
    unfolding show_cce_cluster missing_cluster
    show-Keeps id = search (keeps_rules, show_call-Keeps)

  module _ (env : Env W C) (svc : Service W) where
    active-Keeps : Keeps P (poll_active env svc)
    unfolding poll_active scope_infra_cluster_id
    active-Keeps = search (keeps_rules, show-Keeps) depth 9

    until-Keeps : (max : ℕ) → Keeps P (wait_until (poll_active env svc) poll_interval max)
    unfolding emit
    until-Keeps max =
        Keeps-wait_until _ poll_interval active-Keeps (λ s h. (q.on_emit _ tt).at s h) max

    wait-Keeps : Keeps P (wait_for_cluster_active env svc)
    unfolding wait_for_cluster_active scope_infra_cluster_id
    wait-Keeps = search (keeps_rules, show-Keeps, status-Keeps, until-Keeps) depth 12

    module _ (cluster : Cluster) where
      pub find-Keeps : Keeps P (find_cluster env cluster svc)
      unfolding find_cluster scope_infra_cluster_id
      find-Keeps = search (keeps_rules, show-Keeps) depth 9

      wait_when-Keeps :
          (b : Bool) (found : Option ShowClusterResponse)
          → Keeps P (wait_when env cluster svc b found)
      unfolding wait_when
      wait_when-Keeps false found = search keeps_rules
      wait_when-Keeps true found = search (keeps_rules, wait-Keeps)

      pub busy-Keeps :
          (found : Option ShowClusterResponse) (status : Option ClusterStatus)
          → Keeps P (wait_if_busy env cluster svc found status)
      unfolding wait_if_busy
      busy-Keeps found status = search (keeps_rules, wait_when-Keeps)

      pub read-Keeps :
          (found : Option ShowClusterResponse) → Keeps P (read_endpoints env cluster svc found)
      unfolding read_endpoints
      read-Keeps found = search keeps_rules

      pub failed-Keeps : (e : Error) → Keeps P (control_plane_failed env cluster svc e)
      unfolding control_plane_failed
      failed-Keeps e = search (keeps_rules, mark_false-Keeps)
