-- ===== src/Controller/MachinePool/Lifecycle.antt =====
-- The life of a machine pool's finalizer, over any sequence of edits and of reconciliations of
-- internal/controller/ccemanagedmachinepool_controller.go.
use cluster_api_provider_cce.Prelude.{◌≡◌, ◌≢◌, refl, ap, Bool, true, false, Option, ◌∷◌, arith}
use cluster_api_provider_cce.Errors.{Error, Result, ok, err}
use cluster_api_provider_cce.Go.{
  State, Outcome, ret, fail, panic, attempt, defer_with, if◌then◌else◌, wrap, catch, ◌>>=◌,
}
use cluster_api_provider_cce.Go.Returns.{Returns}
use cluster_api_provider_cce.Env.{Env}
use cluster_api_provider_cce.Call.{Call, PoolM}
use cluster_api_provider_cce.Api.Meta.{MachinePool}
use cluster_api_provider_cce.Api.ControlPlane.{ControlPlane}
use cluster_api_provider_cce.Api.MachinePool.{ManagedMachinePool, managed_machine_pool_finalizer}
use cluster_api_provider_cce.Scope.MachinePool.{
  new_machine_pool_scope, patch_object, close, set_conditions,
}
use cluster_api_provider_cce.Controller.Requests.{CtrlResult, done}
use cluster_api_provider_cce.Controller.MachinePool.{
  close_scope, run_scoped, reconcile_delete, reconcile_normal,
}
use cluster_api_provider_cce.Controller.MachinePool.Deletion.{freed, pool-reconcile_delete-Returns}
use cluster_api_provider_cce.Controller.MachinePool.Finalizer.{pool-reconcile_normal-guarded}

-- The object has the finalizer of machine pools.
abbrev pub Held : {W C : Type 0} → Env W C → ManagedMachinePool C → Type 0
Held env pool = env.finalizers.contains managed_machine_pool_finalizer pool.meta.finalizers ≡ true

module _ {W C : Type 0} (env : Env W C) where
  -- The state in which the scope has been made, with its two patch helpers.
  abbrev pub opened :
      MachinePool
      → State W (Call C) (ManagedMachinePool C)
      → State W (Call C) (ManagedMachinePool C)
  opened machine_pool s = record s {
    world =
        (env.kube.new_capi_machine_pool_helper machine_pool
          (env.kube.new_machine_pool_helper s.obj s.world).1).1;
    trace = Call.read "patch helper" ∷ (Call.read "patch helper" ∷ s.trace);
  }

  same-Held :
      (o p : ManagedMachinePool C) → p.meta.finalizers ≡ o.meta.finalizers → Held env o → Held env p
  same-Held o p e h = rw e h

  close-finalizers :
      (r : Option Error) (s : State W (Call C) (ManagedMachinePool C))
      → (close_scope env r s).1.obj.meta.finalizers ≡ s.obj.meta.finalizers
  unfolding close_scope close patch_object set_conditions ◌>>=◌ attempt
  close-finalizers r s = ground arith

  pub deferred-finalizers :
      {A : Type 0} (m : PoolM W C A) (s : State W (Call C) (ManagedMachinePool C))
      → (defer_with m (close_scope env) s).1.obj.meta.finalizers ≡ (m s).1.obj.meta.finalizers
  unfolding defer_with
  deferred-finalizers m s = close-finalizers _ _

  module _ (control_plane : ControlPlane C) (machine_pool : MachinePool) where
    -- A deletion that is over.
    abbrev pub Completes : State W (Call C) (ManagedMachinePool C) → Type 0
    Completes s =
        (s.obj.meta.deleted ≡ true)
        × ((reconcile_delete env control_plane (opened machine_pool s)).0 ≡ ret done)

    undeleted-Held :
        (pool : ManagedMachinePool C)
        (r : Outcome CtrlResult × State W (Call C) (ManagedMachinePool C))
        → Returns
            (λ a o. (a ≡ done) × (o.meta.finalizers ≡ freed env pool))
            (λ o. o.meta.finalizers ≡ pool.meta.finalizers)
            r
        → r.0 ≢ ret done
        → Held env pool
        → Held env r.1.obj
    undeleted-Held pool (ret a, t) (p, e) n h = absurd (n (ap ret p))
    undeleted-Held pool (fail x, t) e n h = rw e h
    undeleted-Held pool (panic, t) e n h = rw e h

    normal-Held :
        (s : State W (Call C) (ManagedMachinePool C))
        → Held env (reconcile_normal env control_plane s).1.obj
    normal-Held s =
        rw (pool-reconcile_normal-guarded env control_plane s)
          (env.finalizers.contains-add managed_machine_pool_finalizer s.obj.meta.finalizers)

    body-Held :
        (b : Bool) (s : State W (Call C) (ManagedMachinePool C))
        → (b ≡ true → (reconcile_delete env control_plane s).0 ≢ ret done)
        → Held env s.obj
        → Held env
            ((if b then reconcile_delete env control_plane else reconcile_normal env control_plane)
              s).1.obj
    unfolding if◌then◌else◌
    body-Held true s n h =
        undeleted-Held s.obj (reconcile_delete env control_plane s)
          (pool-reconcile_delete-Returns env control_plane s) (n refl) h
    body-Held false s n h = normal-Held s

    scoped-Held :
        (s : State W (Call C) (ManagedMachinePool C)) (r q : Result (Unit {0}))
        → (env.kube.new_machine_pool_helper s.obj s.world).0 ≡ r
        → (env.kube.new_capi_machine_pool_helper machine_pool
            (env.kube.new_machine_pool_helper s.obj s.world).1).0
          ≡ q
        → ¬ (Completes s)
        → Held env s.obj
        → Held env (run_scoped env control_plane machine_pool s).1.obj
    unfolding run_scoped new_machine_pool_scope wrap catch ◌>>=◌
    scoped-Held s (err e) q a b n h = rw a h
    scoped-Held s (ok u) (err e) a b n h = rw (a, b) h
    scoped-Held s (ok u) (ok v) a b n h =
        rw (a, b)
          (rw (deferred-finalizers _ _) (body-Held s.obj.meta.deleted _ (λ d c. n (d, c)) h))

module _ {W C : Type 0} (env : Env W C) (pool : ManagedMachinePool C) where
  -- The machine pools that `pool` may become: by edits that leave the finalizers alone, and by
  -- reconciliations for any ready control plane and any owner in any world, each of which returns, fails or
  -- panics, and none of which completes a deletion. After a reconciliation the machine pool is the object
  -- in memory, which the last call patches.
  pub data Becomes : ManagedMachinePool C → Type 0 where
    unchanged : Becomes pool
    edited :
        {o p : ManagedMachinePool C} → Becomes o → p.meta.finalizers ≡ o.meta.finalizers → Becomes p
    reconciled :
        (control_plane : ControlPlane C) (machine_pool : MachinePool)
        (s : State W (Call C) (ManagedMachinePool C))
        → Becomes s.obj
        → ¬ (Completes env control_plane machine_pool s)
        → Becomes (run_scoped env control_plane machine_pool s).1.obj

  -- A machine pool that has its finalizer keeps it, whatever it becomes.
  pub pool-finalizer-lasts : (o : ManagedMachinePool C) → Held env pool → Becomes o → Held env o
  pool-finalizer-lasts o h unchanged = h
  pool-finalizer-lasts o h (edited b e) = rw e (pool-finalizer-lasts _ h b)
  pool-finalizer-lasts o h (reconciled control_plane machine_pool s b n) =
      scoped-Held env control_plane machine_pool s _ _ refl refl n (pool-finalizer-lasts s.obj h b)
