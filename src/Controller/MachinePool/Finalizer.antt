-- ===== src/Controller/MachinePool/Finalizer.antt =====
-- The finalizer in reconcileNormal of internal/controller/ccemanagedmachinepool_controller.go.
use cluster_api_provider_cce.Prelude.{String, ◌≡◌, refl, ap, Bool, true, false, List}
use cluster_api_provider_cce.Go.{State, when, ◌>>=◌}
use cluster_api_provider_cce.Go.Keeps.{
  Keeps, Keeps-bind, Keeps-wrap, Keeps-then, Keeps-pure, keeps_rules,
}
use cluster_api_provider_cce.Go.Returns.{bind-after}
use cluster_api_provider_cce.Env.{Env}
use cluster_api_provider_cce.Call.{Call}
use cluster_api_provider_cce.Api.ControlPlane.{ControlPlane}
use cluster_api_provider_cce.Api.MachinePool.{ManagedMachinePool, managed_machine_pool_finalizer}
use cluster_api_provider_cce.Scope.MachinePool.{patch_object}
use cluster_api_provider_cce.Service.{get_credentials, build, new_nodepool_service}
use cluster_api_provider_cce.Nodepool.Reconcile.Frame.{Kept, call-Kept, reconcile_pool-Kept}
use cluster_api_provider_cce.Controller.MachinePool.{
  with_finalizers, ensure_finalizer, reconcile_normal,
}

-- The finalizers of `pool` with that of machine pools.
abbrev pub guarded : {W C : Type 0} → Env W C → ManagedMachinePool C → List String
guarded env pool = (env.finalizers.add managed_machine_pool_finalizer pool.meta.finalizers).0

module _ {W C : Type 0} (env : Env W C) (control_plane : ControlPlane C) where
  patch-obj :
      (b : Bool) (s : State W (Call C) (ManagedMachinePool C))
      → (when b (patch_object env) s).1.obj ≡ s.obj
  unfolding patch_object ◌>>=◌
  patch-obj true s = refl
  patch-obj false s = refl

  ensure-guarded :
      (s : State W (Call C) (ManagedMachinePool C))
      → (ensure_finalizer env s).1.obj.meta.finalizers ≡ guarded env s.obj
  unfolding ensure_finalizer with_finalizers ◌>>=◌
  ensure-guarded s = ap (λ (o : ManagedMachinePool C). o.meta.finalizers) (patch-obj _ _)

  service-Kept : (l : List String) → Keeps (Kept l) (new_nodepool_service env control_plane)
  unfolding new_nodepool_service get_credentials build
  service-Kept l = search (keeps_rules, call-Kept l)

  -- reconcileNormal leaves the machine pool with the finalizers that AddFinalizer gives, whether it
  -- returns, fails or panics.
  pub pool-reconcile_normal-guarded :
      (s : State W (Call C) (ManagedMachinePool C))
      → (reconcile_normal env control_plane s).1.obj.meta.finalizers ≡ guarded env s.obj
  unfolding reconcile_normal
  pool-reconcile_normal-guarded s =
      bind-after (Kept (guarded env s.obj)) _ _ s
        (λ _. Keeps-bind _ _ (Keeps-wrap _ _ (service-Kept _)) (λ cce.
          Keeps-then _ _ (Keeps-wrap _ _ (reconcile_pool-Kept env control_plane cce _))
            (Keeps-pure _)))
        (ensure-guarded s)
