-- ===== src/Controller/MachinePool/Whole.antt =====
-- A whole reconciliation of a machine pool in deletion, from the request to the last patch:
-- internal/controller/ccemanagedmachinepool_controller.go.
use cluster_api_provider_cce.Prelude.{◌≡◌, refl, ◌∙◌, Bool, true, false, none, some, List, ◌∷◌}
use cluster_api_provider_cce.Errors.{ok}
use cluster_api_provider_cce.Go.{
  State, ret, deref, attempt, defer_with, wrap, catch, with_object, if◌then◌else◌, ◌>>=◌,
}
use cluster_api_provider_cce.Env.{Env}
use cluster_api_provider_cce.Call.{Call, PoolM}
use cluster_api_provider_cce.Api.Meta.{
  Cluster, MachinePool, NamespacedName, ObjectReference, OwnerReference,
}
use cluster_api_provider_cce.Api.ControlPlane.{ControlPlane}
use cluster_api_provider_cce.Api.MachinePool.{ManagedMachinePool}
use cluster_api_provider_cce.Scope.MachinePool.{
  new_machine_pool_scope, patch_object, close, set_conditions,
}
use cluster_api_provider_cce.Nodepool.Delete.Progress.{Accepts}
use cluster_api_provider_cce.Controller.Requests.{CtrlResult, done, find_owner}
use cluster_api_provider_cce.Controller.MachinePool.{
  reconcile_delete, close_scope, run_scoped, with_control_plane, with_cluster, fetch_owner,
  get_owner_machine_pool, with_owner, reconcile_object, reconcile,
}
use cluster_api_provider_cce.Controller.MachinePool.Closing.{deferred-trace}
use cluster_api_provider_cce.Controller.MachinePool.Lifecycle.{deferred-finalizers}
use cluster_api_provider_cce.Controller.MachinePool.Deletion.{freed}
use cluster_api_provider_cce.Controller.MachinePool.Progress.{
  Cooperates, pool-reconcile_delete-completes,
}

module _ {W C : Type 0} (env : Env W C) (accepts : Accepts env) where
  close-ret : (s : State W (Call C) (ManagedMachinePool C)) → (close_scope env none s).0 ≡ ret none
  unfolding close_scope close patch_object set_conditions attempt ◌>>=◌
  close-ret s = rw (accepts _ _) refl

  deferred-ret :
      (m : PoolM W C CtrlResult) (s : State W (Call C) (ManagedMachinePool C))
      → (m s).0 ≡ ret done
      → (defer_with m (close_scope env) s).0 ≡ ret done
  unfolding defer_with
  deferred-ret m s h = rw (h, close-ret (m s).1) refl

  if_true : {A : Type 0} (b : Bool) (m n : PoolM W C A) → b ≡ true → (if b then m else n) ≡ m
  unfolding if◌then◌else◌
  if_true b m n h = rw h refl

-- What a reconciliation of `pool` reads from `w` before it deletes: its owner, the owner's cluster, which is
-- not paused, and a ready control plane; both patch helpers are made, and `last` is the world after that.
pub record Reaches {W C : Type 0} (env : Env W C) (pool : ManagedMachinePool C) (w last : W)
    : Type 0 where
  pub owned : W
  pub clustered : W
  pub controlled : W
  pub helped : W
  pub owner : OwnerReference
  pub machine_pool : MachinePool
  pub cluster : Cluster
  pub ref : ObjectReference
  pub control_plane : ControlPlane C
  pub has_owner :
      find_owner env.kube.parse_group_version "MachinePool" pool.meta.owner_references
      ≡ ok (some owner)
  pub gets_owner :
      env.kube.get_machine_pool (record { namespace = pool.meta.namespace; name = owner.name }) w
      ≡ (ok machine_pool, owned)
  pub gets_cluster :
      env.kube.get_cluster_from_metadata machine_pool.meta owned ≡ (ok cluster, clustered)
  pub unpaused : env.kube.is_paused cluster pool.meta ≡ false
  pub has_ref : cluster.control_plane_ref ≡ some ref
  pub gets_control_plane :
      env.kube.get_control_plane
        (record { namespace = pool.meta.namespace; name = ref.name })
        clustered
      ≡ (ok control_plane, controlled)
  pub is_ready : control_plane.status.ready ≡ true
  pub helps : env.kube.new_machine_pool_helper pool controlled ≡ (ok tt, helped)
  pub helps_owner : env.kube.new_capi_machine_pool_helper machine_pool helped ≡ (ok tt, last)

module _ {W C : Type 0} (env : Env W C) (accepts : Accepts env) where
  -- The calls of those reads, the latest first.
  abbrev reads : List (Call C) → List (Call C)
  reads t =
      Call.read "patch helper"
      ∷ (Call.read "patch helper"
          ∷ (Call.read "CCEManagedControlPlane"
              ∷ (Call.read "Cluster" ∷ (Call.read "MachinePool" ∷ t))))

  abbrev scoped :
      W → State W (Call C) (ManagedMachinePool C) → State W (Call C) (ManagedMachinePool C)
  scoped last s = record s { world = last; trace = reads s.trace }

  reaches-delete :
      (s : State W (Call C) (ManagedMachinePool C)) (last : W) (r : Reaches env s.obj s.world last)
      → s.obj.meta.deleted ≡ true
      → reconcile_object env s
        ≡ defer_with (reconcile_delete env r.control_plane) (close_scope env) (scoped last s)
  unfolding reconcile_object get_owner_machine_pool fetch_owner with_owner with_cluster
      with_control_plane run_scoped new_machine_pool_scope wrap catch ◌>>=◌
  reaches-delete s last r d =
      rw
        (
          r.has_owner,
          r.gets_owner,
          r.gets_cluster,
          r.unpaused,
          r.has_ref,
          deref,
          r.gets_control_plane,
          r.is_ready,
          r.helps,
          r.helps_owner,
          if_true env accepts _ _ _ d,
        )
        refl

  -- A machine pool in deletion that is found, whose owners are found and not paused, whose control plane is
  -- ready, where the world cooperates with the deletion and the API server accepts patches: one Reconcile
  -- returns done, and its last call is the patch of a machine pool without the finalizer.
  pub pool-deletion-persisted :
      (request : NamespacedName) (s : State W (Call C) (Unit {0})) (pool : ManagedMachinePool C)
      (w last : W) (r : Reaches env pool w last)
      → env.kube.get_managed_machine_pool request s.world ≡ (ok pool, w)
      → pool.meta.deleted ≡ true
      → Cooperates env r.control_plane pool last
      → ((reconcile env request s).0 ≡ ret done)
        × ((t : List (Call C)) × (o : ManagedMachinePool C) × ((reconcile env request s).1.trace
              ≡ Call.patch_machine_pool o ∷ t)
            × (o.meta.finalizers ≡ freed env pool))
  unfolding reconcile with_object ◌>>=◌
  pool-deletion-persisted request s pool w last r g d h =
      let u : State W (Call C) (ManagedMachinePool C) = record {
        world = w;
        obj = pool;
        trace = Call.read "CCEManagedMachinePool" ∷ s.trace;
      } in
      let m = reconcile_delete env r.control_plane in
      let t = scoped last u in
      let (q, e) = pool-reconcile_delete-completes env accepts r.control_plane t h in
      let f : (defer_with m (close_scope env) t).1.obj.meta.finalizers ≡ freed env pool =
        deferred-finalizers env m t ∙ e in
      rw (g, reaches-delete u last r d)
        (deferred-ret env accepts m t q, (_, _, deferred-trace env m t, f))
