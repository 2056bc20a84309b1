-- ===== src/Nodepool/Frame.antt =====
-- What the parts of ReconcilePool of pkg/cloud/services/cce/nodepool.go keep that create nothing: their
-- calls read, pause or patch.
use cluster_api_provider_cce.Prelude.{ℕ, String, Bool, ◌≡◌, refl, Option, List, [], ◌∷◌}
use cluster_api_provider_cce.Errors.{Error, Result}
use cluster_api_provider_cce.Go.{State, call, emit, modify}
use cluster_api_provider_cce.Go.Keeps.{
  Keeps, Keeps-bind, Keeps-then, Keeps-deref, Keeps-wrap, Keeps-pure, Keeps-get_obj, Keeps-when,
  Keeps-if, Keeps-catch, keeps_rules,
}
use cluster_api_provider_cce.Env.{Env, Severity}
use cluster_api_provider_cce.Call.{Call}
use cluster_api_provider_cce.Sdk.{CceClient, NodePool, NodePoolResponse, Node}
use cluster_api_provider_cce.Api.ControlPlane.{ControlPlane}
use cluster_api_provider_cce.Api.MachinePool.{ManagedMachinePool}
use cluster_api_provider_cce.Scope.MachinePool.{
  with_infra_machine_pool_id, scope_infra_machine_pool_id, set_infra_machine_pool_id, patch_object,
  mark_true, mark_false, set_conditions,
}
use cluster_api_provider_cce.Service.Wait.{poll_interval, wait_until}
use cluster_api_provider_cce.Service.Wait.Polls.{Keeps-wait_until}
use cluster_api_provider_cce.Nodepool.Show.{of_response, missing_nodepool, show_nodepool}
use cluster_api_provider_cce.Nodepool.Status.{
  with_ready, with_failure, with_nodes, node_provider_id, provider_ids, apply_phase, refresh_nodes,
  set_status,
}
use cluster_api_provider_cce.Nodepool.Reconcile.{
  poll_active, wait_for_nodepool_active, find_nodepool, wait_if_busy, pool_failed,
}

-- The calls that change nothing in the cloud.
abbrev pub IsQuiet : {C : Type 0} → Call C → Type 0
IsQuiet (Call.show_node_pool c p) = Unit {0}
IsQuiet (Call.list_nodes c) = Unit {0}
IsQuiet (Call.patch_machine_pool pool) = Unit {0}
IsQuiet (Call.sleep n) = Unit {0}
IsQuiet _ = ⊥

-- A property of states that quiet calls keep, and edits of the object that leave its finalizers.
pub record Quiet {W C : Type 0} (P : State W (Call C) (ManagedMachinePool C) → Type 0)
    : Type 1 where
  pub on_call : {A : Type 0} (c : Call C) (f : W → Result A × W) → IsQuiet c → Keeps P (call c f)
  pub on_emit : (c : Call C) → IsQuiet c → Keeps P (emit c)
  pub on_edit :
      (f : ManagedMachinePool C → ManagedMachinePool C)
      → ((o : ManagedMachinePool C) → (f o).meta.finalizers ≡ o.meta.finalizers)
      → Keeps P (modify f)

module _ {W C : Type 0} {P : State W (Call C) (ManagedMachinePool C) → Type 0} (q : Quiet P)
    (env : Env W C) (control_plane : ControlPlane C) (cce : CceClient W) where
  ready-Keeps : (b : Bool) → Keeps P (modify (with_ready b))
  unfolding with_ready
  ready-Keeps b = q.on_edit _ (λ o. refl)

  failure-Keeps : (f : Option String) → Keeps P (modify (with_failure f))
  unfolding with_failure
  failure-Keeps f = q.on_edit _ (λ o. refl)

  stored-Keeps : (ids : List String) (n : ℕ) → Keeps P (modify (with_nodes ids n))
  unfolding with_nodes
  stored-Keeps ids n = q.on_edit _ (λ o. refl)

  pub response-Keeps : (r : NodePoolResponse) → Keeps P (of_response r)
  unfolding of_response
  response-Keeps r = search keeps_rules

  missing-Keeps : (e : Error) → Keeps P (missing_nodepool e)
  unfolding missing_nodepool
  missing-Keeps e = search keeps_rules

  show-Keeps : Keeps P (show_nodepool control_plane cce)
  unfolding show_nodepool scope_infra_machine_pool_id
  show-Keeps = Keeps-bind _ _ (Keeps-bind _ _ Keeps-get_obj (λ p. Keeps-pure _)) (λ id.
      Keeps-catch _ _
        (Keeps-bind _ _ (q.on_call _ _ tt)
          (λ r. Keeps-bind _ _ (response-Keeps r) (λ np. Keeps-pure _)))
        missing-Keeps)

  pub patch-Keeps : Keeps P (patch_object env)
  unfolding patch_object
  patch-Keeps = Keeps-bind _ _ Keeps-get_obj (λ p. q.on_call _ _ tt)

  ids-Keeps : (pool_id : String) (nodes : List Node) → Keeps P (provider_ids pool_id nodes)
  unfolding provider_ids node_provider_id
  ids-Keeps pool_id [] = Keeps-pure _
  ids-Keeps pool_id (node ∷ nodes) =
      let rest = ids-Keeps pool_id nodes in
      Keeps-bind _ _ (Keeps-deref _) (λ m.
        Keeps-if _ _ _
          (λ _.
            Keeps-bind _ _ (search keeps_rules) (λ id. Keeps-bind _ _ rest (λ ids. Keeps-pure _)))
          (λ _. rest))

  phase-Keeps : (phase : String) → Keeps P (apply_phase env.enums phase)
  unfolding apply_phase
  phase-Keeps phase = search (keeps_rules, ready-Keeps, failure-Keeps) depth 9

  nodes-Keeps : (k : Option ℕ) → Keeps P (refresh_nodes env control_plane cce k)
  unfolding refresh_nodes
  nodes-Keeps k = Keeps-bind _ _ Keeps-get_obj (λ pool.
      Keeps-bind _ _ (Keeps-wrap _ _ (q.on_call _ _ tt)) (λ r.
        Keeps-bind _ _ (Keeps-deref r) (λ nodes.
          Keeps-bind _ _ (ids-Keeps _ nodes)
            (λ ids. Keeps-bind _ _ (Keeps-deref k) (λ c. stored-Keeps ids c)))))

  pub status-Keeps : (np : NodePool) → Keeps P (set_status env control_plane cce np)
  unfolding set_status
  status-Keeps np = Keeps-bind _ _ (Keeps-deref _) (λ st. Keeps-bind _ _ (Keeps-deref _) (λ phase.
      Keeps-then _ _ (phase-Keeps phase) (
        Keeps-bind _ _ Keeps-get_obj (λ pool.
          Keeps-then _ _ (Keeps-when _ _ (λ _. nodes-Keeps _)) (Keeps-wrap _ _ patch-Keeps)))))

  active-Keeps : Keeps P (poll_active env control_plane cce)
  unfolding poll_active
  active-Keeps = search (keeps_rules, show-Keeps) depth 9

  sleep-Keeps : (k : ℕ) → Keeps P (emit (Call.sleep k))
  sleep-Keeps k = q.on_emit _ tt

  until-Keeps :
      (max : ℕ) → Keeps P (wait_until (poll_active env control_plane cce) poll_interval max)
  unfolding emit
  until-Keeps max =
      Keeps-wait_until _ poll_interval active-Keeps (λ s h. (sleep-Keeps _).at s h) max

  wait-Keeps : Keeps P (wait_for_nodepool_active env control_plane cce)
  unfolding wait_for_nodepool_active
  wait-Keeps = search (keeps_rules, until-Keeps, show-Keeps, status-Keeps) depth 12

  pub busy-Keeps : (np : NodePool) → Keeps P (wait_if_busy env control_plane cce np)
  unfolding wait_if_busy
  busy-Keeps np = search (keeps_rules, wait-Keeps) depth 9

  pub find-Keeps : Keeps P (find_nodepool env control_plane cce)
  unfolding find_nodepool scope_infra_machine_pool_id
  find-Keeps = search (keeps_rules, show-Keeps) depth 9

  mark_false-Keeps : (t r : String) (v : Severity) (m : String) → Keeps P (mark_false env t r v m)
  unfolding mark_false set_conditions
  mark_false-Keeps t r v m = q.on_edit _ (λ o. refl)

  pub mark_true-Keeps : (t : String) → Keeps P (mark_true env t)
  unfolding mark_true set_conditions
  mark_true-Keeps t = q.on_edit _ (λ o. refl)

  pub failed-Keeps : (e : Error) → Keeps P (pool_failed env control_plane cce e)
  unfolding pool_failed
  failed-Keeps e = search (keeps_rules, mark_false-Keeps)

  pub id-Keeps : (id : String) → Keeps P (set_infra_machine_pool_id id)
  unfolding set_infra_machine_pool_id with_infra_machine_pool_id
  id-Keeps id = q.on_edit _ (λ o. refl)
