-- ===== src/Nodepool/Delete/Progress.antt =====
-- ReconcilePoolDelete of pkg/cloud/services/cce/nodepool.go where the cloud carries the deletion out.
use cluster_api_provider_cce.Prelude.{
  ◌<>◌, ℕ, zero, suc, ◌<◌, String, ◌≡◌, refl, ap, ◌∙◌, true, false, Option, none, some, ◌∷◌, arith,
  eq_self,
}
use cluster_api_provider_cce.Errors.{Error, ok, err}
use cluster_api_provider_cce.Go.{State, ret, deref, defer_with, catch, wrap, ◌>>=◌}
use cluster_api_provider_cce.Go.Returns.{wrap-ret}
use cluster_api_provider_cce.Env.{Env}
use cluster_api_provider_cce.Call.{Call, PoolM}
use cluster_api_provider_cce.Sdk.{CceClient, NodePoolStatus, NodePoolResponse}
use cluster_api_provider_cce.Api.ControlPlane.{ControlPlane, infra_cluster_id}
use cluster_api_provider_cce.Api.MachinePool.{ManagedMachinePool, infra_machine_pool_id}
use cluster_api_provider_cce.Scope.MachinePool.{
  patch_object, mark_false, set_conditions, nodepool_ready_false, scope_infra_machine_pool_id,
}
use cluster_api_provider_cce.Service.Wait.{wait_until, poll_interval, max_polls}
use cluster_api_provider_cce.Service.Wait.Polls.{wait-yes, wait-no}
use cluster_api_provider_cce.Cluster.Show.{is_404}
use cluster_api_provider_cce.Nodepool.Show.{of_response, missing_nodepool, show_nodepool}
use cluster_api_provider_cce.Nodepool.Delete.{
  deleting_reason, deletion_over, poll_deleted, wait_for_nodepool_deleted, accept_deletion,
  await_deletion, request_deletion, report_deletion, delete_nodepool_and_wait, delete_found,
  reconcile_pool_delete,
}
use cluster_api_provider_cce.Nodepool.Delete.Report.{not_ready}

-- A response with its kind, its version and a status.
abbrev pub response_of :
    String → String → Option (Option String) → Option NodePoolStatus → NodePoolResponse
response_of kind version uid status = record {
  kind = some kind;
  api_version = some version;
  metadata_uid = uid;
  status = status;
}

module _ {W C : Type 0} (env : Env W C) (control_plane : ControlPlane C) (cce : CceClient W)
    (id : String) where
  -- From the world `w`, the node pool is shown `n` times in deletion, and is then gone.
  pub data Leaves : ℕ → W → Type 0 where
    gone :
        {w w' : W} {e : Error}
        → cce.show_node_pool (infra_cluster_id control_plane) id w ≡ (err e, w')
        → is_404 e ≡ true
        → Leaves zero w
    deleting :
        {n : ℕ} {w w' : W} {kind version : String} {uid : Option (Option String)}
        {status : NodePoolStatus}
        → cce.show_node_pool (infra_cluster_id control_plane) id w
          ≡ (ok (response_of kind version uid (some status)), w')
        → status.phase ≡ some env.enums.deleting
        → Leaves n w'
        → Leaves (suc n) w

  abbrev shown :
      State W (Call C) (ManagedMachinePool C) → W → State W (Call C) (ManagedMachinePool C)
  shown s w' = record s {
    world = w';
    trace = Call.show_node_pool (infra_cluster_id control_plane) id ∷ s.trace;
  }

  poll-gone :
      (s : State W (Call C) (ManagedMachinePool C)) (w' : W) (e : Error)
      → infra_machine_pool_id s.obj ≡ id
      → cce.show_node_pool (infra_cluster_id control_plane) id s.world ≡ (err e, w')
      → is_404 e ≡ true
      → poll_deleted env control_plane cce s ≡ (ret true, shown s w')
  unfolding poll_deleted show_nodepool scope_infra_machine_pool_id missing_nodepool deletion_over
      catch ◌>>=◌
  poll-gone s w' e l h g = rw (l, h, g) refl

  poll-deleting :
      (s : State W (Call C) (ManagedMachinePool C)) (w' : W) (kind version : String)
      (uid : Option (Option String)) (status : NodePoolStatus)
      → infra_machine_pool_id s.obj ≡ id
      → cce.show_node_pool (infra_cluster_id control_plane) id s.world
        ≡ (ok (response_of kind version uid (some status)), w')
      → status.phase ≡ some env.enums.deleting
      → poll_deleted env control_plane cce s ≡ (ret false, shown s w')
  unfolding poll_deleted show_nodepool scope_infra_machine_pool_id of_response deletion_over deref
      catch ◌>>=◌
  poll-deleting s w' kind version uid status l h p = rw (l, h, p, eq_self env.enums.deleting) refl

  -- The wait ends well where the node pool leaves within the polls.
  wait-ends :
      (n max : ℕ) (s : State W (Call C) (ManagedMachinePool C))
      → n < max
      → infra_machine_pool_id s.obj ≡ id
      → Leaves n s.world
      → (wait_until (poll_deleted env control_plane cce) poll_interval max s).0 ≡ ret tt
  wait-ends n zero s m l h = absurd (omega arith)
  wait-ends zero (suc max) s m l (gone h g) =
      ap (λ r. r.0) (wait-yes _ poll_interval max s _ (poll-gone s _ _ l h g))
  wait-ends (suc n) (suc max) s m l (deleting h p rest) =
      ap (λ r. r.0) (wait-no _ poll_interval max s _ (poll-deleting s _ _ _ _ _ l h p))
      ∙ wait-ends n max _ (omega arith) l rest

  request-ends :
      (n : ℕ) (w' : W) (name : String) (s : State W (Call C) (ManagedMachinePool C))
      → infra_machine_pool_id s.obj ≡ id
      → cce.delete_node_pool (infra_cluster_id control_plane) id s.world ≡ (ok tt, w')
      → n < max_polls
      → Leaves n w'
      → (request_deletion env control_plane cce name s).0 ≡ ret tt
  unfolding request_deletion scope_infra_machine_pool_id accept_deletion await_deletion
      wait_for_nodepool_deleted catch ◌>>=◌
  request-ends n w' name s l h m rest =
      let t : State W (Call C) (ManagedMachinePool C) = record s {
        world = w';
        trace = Call.delete_node_pool (infra_cluster_id control_plane) id ∷ s.trace;
      } in
      rw (l, h)
        (wrap-ret ("failed waiting for CCE nodepool " <> name <> " to delete")
          (wait_until (poll_deleted env control_plane cce) poll_interval max_polls) t tt
          (wait-ends n max_polls t m l rest))

-- The API server accepts every patch of a machine pool.
abbrev pub Accepts : {W C : Type 0} → Env W C → Type 0
Accepts {W = W} {C = C} env =
    (pool : ManagedMachinePool C) (w : W) → (env.kube.patch_machine_pool pool w).0 ≡ ok tt

module _ {W C : Type 0} (env : Env W C) (control_plane : ControlPlane C) (cce : CceClient W)
    (accepts : Accepts env) where
  report-ret :
      (s : State W (Call C) (ManagedMachinePool C))
      → (report_deletion env control_plane cce none s).0 ≡ ret none
  unfolding report_deletion nodepool_ready_false mark_false set_conditions patch_object catch wrap
      ◌>>=◌
  report-ret s = rw (accepts _ _) refl

  deferred-ret :
      (m : PoolM W C (Unit {0})) (s : State W (Call C) (ManagedMachinePool C))
      → (m s).0 ≡ ret tt
      → (defer_with m (report_deletion env control_plane cce) s).0 ≡ ret tt
  unfolding defer_with
  deferred-ret m s h = rw (h, report-ret (m s).1) refl

  -- The state after the pool was reported as being deleted.
  abbrev marked : State W (Call C) (ManagedMachinePool C) → State W (Call C) (ManagedMachinePool C)
  marked s =
      let pool = not_ready env control_plane cce deleting_reason "" s.obj in
      record {
        world = (env.kube.patch_machine_pool pool s.world).1;
        obj = pool;
        trace = Call.patch_machine_pool pool ∷ s.trace;
      }

  mark-ret :
      (s : State W (Call C) (ManagedMachinePool C))
      → nodepool_ready_false env deleting_reason "" s ≡ (ret tt, marked s)
  unfolding nodepool_ready_false mark_false set_conditions patch_object catch wrap ◌>>=◌
  mark-ret s = rw (accepts _ _) refl

  -- A node pool that is there, whose deletion CCE accepts once the pool is reported as being deleted, and
  -- that is gone after `n` more polls, is deleted without an error, where `n` is below the number of polls.
  pub pool-delete-succeeds :
      (s : State W (Call C) (ManagedMachinePool C)) (kind version : String)
      (uid : Option (Option String)) (status : Option NodePoolStatus) (found accepted : W) (n : ℕ)
      → let id = infra_machine_pool_id s.obj in
        let cluster_id = infra_cluster_id control_plane in
        cce.show_node_pool cluster_id id s.world ≡ (ok (response_of kind version uid status), found)
        → cce.delete_node_pool cluster_id id
            (env.kube.patch_machine_pool
              (not_ready env control_plane cce deleting_reason "" s.obj)
              found).1
          ≡ (ok tt, accepted)
        → Leaves env control_plane cce id n accepted
        → n < max_polls
        → (reconcile_pool_delete env control_plane cce s).0 ≡ ret tt
  unfolding reconcile_pool_delete show_nodepool scope_infra_machine_pool_id of_response deref
      delete_found delete_nodepool_and_wait infra_machine_pool_id wrap catch ◌>>=◌
  pool-delete-succeeds s kind version uid status found accepted n hs hd l m =
      let id = infra_machine_pool_id s.obj in
      let t : State W (Call C) (ManagedMachinePool C) = record s {
        world = found;
        trace = Call.show_node_pool (infra_cluster_id control_plane) id ∷ s.trace;
      } in
      let name = s.obj.meta.name in
      rw (hs, mark-ret t)
        (rw
          (deferred-ret (request_deletion env control_plane cce name) (marked t)
            (request-ends env control_plane cce id n accepted name (marked t) refl hd m l))
          refl)
