-- ===== src/Nodepool/Delete/Safety.antt =====
-- What deleting a node pool may touch.
use cluster_api_provider_cce.Prelude.{
  String, ◌≡◌, refl, ap, Bool, true, false, Option, none, some, List,
}
use cluster_api_provider_cce.Errors.{Error}
use cluster_api_provider_cce.Go.{State}
use cluster_api_provider_cce.Go.Keeps.{
  Keeps, Keeps-bind, Keeps-wrap, Keeps-then, Keeps-get_obj, Keeps-catch, Keeps-pure,
  Keeps-defer_with,
}
use cluster_api_provider_cce.Go.Within.{
  Within, Within-read, Within-modify, Within-get_obj, Within-call, within_rules, one_more,
  run_within,
}
use cluster_api_provider_cce.Env.{Env, Severity}
use cluster_api_provider_cce.Call.{Call, PoolM}
use cluster_api_provider_cce.Sdk.{CceClient, NodePool, NodePoolResponse}
use cluster_api_provider_cce.Api.ControlPlane.{ControlPlane, infra_cluster_id}
use cluster_api_provider_cce.Api.MachinePool.{ManagedMachinePool, infra_machine_pool_id}
use cluster_api_provider_cce.Scope.MachinePool.{
  scope_infra_machine_pool_id, patch_object, mark_false, set_conditions, nodepool_ready_false,
}
use cluster_api_provider_cce.Service.Wait.{poll_interval}
use cluster_api_provider_cce.Service.Wait.Polls.{Keeps-wait_until}
use cluster_api_provider_cce.Nodepool.Show.{of_response, missing_nodepool, show_nodepool}
use cluster_api_provider_cce.Nodepool.Delete.{
  deletion_over, poll_deleted, wait_for_nodepool_deleted, accept_deletion, await_deletion,
  request_deletion, report_deletion, delete_nodepool_and_wait, delete_found, reconcile_pool_delete,
}

-- `pool` with the conditions of `old`.
abbrev pub but_conditions :
    {C : Type 0} → ManagedMachinePool C → ManagedMachinePool C → ManagedMachinePool C
but_conditions old pool = record pool {
  status = record pool.status { conditions = old.status.conditions };
}

-- The calls of the deletion of the node pool of `old`'s label, in the CCE cluster `cluster_id`.
abbrev pub DeletesPool : {C : Type 0} → String → ManagedMachinePool C → Call C → Type 0
DeletesPool cluster_id old (Call.show_node_pool c p) =
    (c ≡ cluster_id) × (p ≡ infra_machine_pool_id old)
DeletesPool cluster_id old (Call.delete_node_pool c p) =
    (c ≡ cluster_id) × (p ≡ infra_machine_pool_id old)
DeletesPool cluster_id old (Call.sleep n) = n ≡ poll_interval
DeletesPool cluster_id old (Call.patch_machine_pool pool) = but_conditions old pool ≡ old
DeletesPool cluster_id old _ = ⊥

module _ {W C : Type 0} (env : Env W C) (control_plane : ControlPlane C) (cce : CceClient W)
    (old : ManagedMachinePool C) (before : List (Call C)) where
  abbrev Deleting : {A : Type 0} → PoolM W C A → Type 0
  Deleting m =
      Keeps
        (Within (λ o. but_conditions old o ≡ old) (DeletesPool (infra_cluster_id control_plane) old)
          before)
        m

  same_id :
      (o : ManagedMachinePool C)
      → but_conditions old o ≡ old
      → infra_machine_pool_id o ≡ infra_machine_pool_id old
  unfolding infra_machine_pool_id
  same_id o e = ap infra_machine_pool_id e

  response-Deleting : (r : NodePoolResponse) → Deleting (of_response r)
  unfolding of_response
  response-Deleting r = search within_rules

  missing-Deleting : (e : Error) → Deleting (missing_nodepool e)
  unfolding missing_nodepool
  missing-Deleting e = search within_rules

  show-Deleting : Deleting (show_nodepool control_plane cce)
  unfolding show_nodepool scope_infra_machine_pool_id
  show-Deleting = Within-read infra_machine_pool_id _ (λ o e.
      Keeps-catch _ _
        (Keeps-bind _ _ (Within-call _ _ (refl, same_id o e))
          (λ r. Keeps-bind _ _ (response-Deleting r) (λ np. Keeps-pure (some np))))
        missing-Deleting)

  over-Deleting : (found : Option NodePool) → Deleting (deletion_over env control_plane cce found)
  unfolding deletion_over
  over-Deleting none = search within_rules
  over-Deleting (some np) = search within_rules

  wait-Deleting : Deleting (wait_for_nodepool_deleted env control_plane cce)
  unfolding wait_for_nodepool_deleted poll_deleted
  wait-Deleting =
      Keeps-wait_until _ poll_interval (search (within_rules, show-Deleting, over-Deleting))
        (λ s h. one_more (Call.sleep poll_interval) s _ refl refl h.holds h) _

  await-Deleting :
      (name : String) (accepted : Bool)
      → Deleting (await_deletion env control_plane cce name accepted)
  unfolding await_deletion
  await-Deleting name true = Keeps-wrap _ _ wait-Deleting
  await-Deleting name false = Keeps-pure tt

  request-Deleting : (name : String) → Deleting (request_deletion env control_plane cce name)
  unfolding request_deletion scope_infra_machine_pool_id accept_deletion
  request-Deleting name = Within-read infra_machine_pool_id _ (λ o e.
      Keeps-bind _ _
        (Keeps-catch _ _ (Keeps-then _ _ (Within-call _ _ (refl, same_id o e)) (Keeps-pure true))
          (λ x. search within_rules))
        (λ accepted. await-Deleting name accepted))

  patch-Deleting : Deleting (patch_object env)
  unfolding patch_object
  patch-Deleting = Within-get_obj _ (λ o q. Within-call _ _ q)

  mark-Deleting : (t r : String) (v : Severity) (m : String) → Deleting (mark_false env t r v m)
  unfolding mark_false set_conditions
  mark-Deleting t r v m = Within-modify _ (λ o q. q)

  ready_false-Deleting : (r m : String) → Deleting (nodepool_ready_false env r m)
  unfolding nodepool_ready_false
  ready_false-Deleting r m = Keeps-then _ _ (mark-Deleting _ _ _ _) (Keeps-wrap _ _ patch-Deleting)

  report-Deleting : (e : Option Error) → Deleting (report_deletion env control_plane cce e)
  unfolding report_deletion
  report-Deleting none =
      Keeps-catch _ _ (Keeps-then _ _ (ready_false-Deleting _ _) (Keeps-pure none))
        (λ e. Keeps-pure (some e))
  report-Deleting (some e) =
      Keeps-catch _ _ (Keeps-then _ _ (ready_false-Deleting _ _) (Keeps-pure none))
        (λ e'. Keeps-pure (some e'))

  found-Deleting : (found : Option NodePool) → Deleting (delete_found env control_plane cce found)
  unfolding delete_found delete_nodepool_and_wait
  found-Deleting none = Keeps-pure tt
  found-Deleting (some np) = Keeps-wrap _ _ (
      Keeps-bind _ _ Keeps-get_obj (λ pool.
        Keeps-then _ _ (ready_false-Deleting _ _)
          (Keeps-defer_with _ _ (request-Deleting _) report-Deleting)))

  delete-Deleting : Deleting (reconcile_pool_delete env control_plane cce)
  unfolding reconcile_pool_delete
  delete-Deleting = Keeps-bind _ _ (Keeps-wrap _ _ show-Deleting) found-Deleting

-- Deleting a node pool, however it ends, changes the machine pool's conditions alone, and makes no
-- calls but to show and to delete the node pool of the two labels, to pause between two polls, and to
-- patch a machine pool that differs from the first one in its conditions alone.
pub pool_delete-Within :
    {W C : Type 0} (env : Env W C) (control_plane : ControlPlane C) (cce : CceClient W)
    (s : State W (Call C) (ManagedMachinePool C))
    → Within
        (λ o. but_conditions s.obj o ≡ s.obj)
        (DeletesPool (infra_cluster_id control_plane) s.obj)
        s.trace
        (reconcile_pool_delete env control_plane cce s).1
pool_delete-Within env control_plane cce s =
    run_within _ _ _ (delete-Deleting env control_plane cce s.obj) s refl
