-- ===== src/Controller/MachinePool/Closing.antt =====
-- The deferred close of the machine pool's scope.
use cluster_api_provider_cce.Prelude.{◌≡◌, Option, List, ◌∷◌, arith}
use cluster_api_provider_cce.Errors.{Error, ok}
use cluster_api_provider_cce.Go.{State, ◌>>=◌, attempt, defer_with}
use cluster_api_provider_cce.Env.{Env}
use cluster_api_provider_cce.Call.{Call, PoolM}
use cluster_api_provider_cce.Api.Meta.{MachinePool}
use cluster_api_provider_cce.Api.ControlPlane.{ControlPlane}
use cluster_api_provider_cce.Api.MachinePool.{ManagedMachinePool}
use cluster_api_provider_cce.Scope.MachinePool.{
  new_machine_pool_scope, patch_object, close, set_conditions,
}
use cluster_api_provider_cce.Controller.MachinePool.{close_scope, run_scoped}

module _ {W C : Type 0} (env : Env W C) where
  close-trace :
      (r : Option Error) (s : State W (Call C) (ManagedMachinePool C))
      → (close_scope env r s).1.trace
        ≡ Call.patch_machine_pool (close_scope env r s).1.obj ∷ s.trace
  unfolding close_scope close patch_object set_conditions ◌>>=◌ attempt
  close-trace r s = ground arith

  pub deferred-trace :
      {A : Type 0} (m : PoolM W C A) (s : State W (Call C) (ManagedMachinePool C))
      → (defer_with m (close_scope env) s).1.trace
        ≡ Call.patch_machine_pool (defer_with m (close_scope env) s).1.obj ∷ (m s).1.trace
  unfolding defer_with
  deferred-trace m s = close-trace _ _

  -- Where the scope's two patch helpers are made, the last call of the reconciliation of a machine
  -- pool is the patch of the object as the reconciliation left it in memory, whether it returns, fails
  -- or panics.
  pub pool-run_scoped-persists :
      (control_plane : ControlPlane C) (machine_pool : MachinePool)
      (s : State W (Call C) (ManagedMachinePool C))
      → (env.kube.new_machine_pool_helper s.obj s.world).0 ≡ ok tt
      → (env.kube.new_capi_machine_pool_helper machine_pool
          (env.kube.new_machine_pool_helper s.obj s.world).1).0
        ≡ ok tt
      → (t : List (Call C)) × ((run_scoped env control_plane machine_pool s).1.trace
          ≡ Call.patch_machine_pool (run_scoped env control_plane machine_pool s).1.obj ∷ t)
  unfolding run_scoped new_machine_pool_scope ◌>>=◌
  pool-run_scoped-persists control_plane machine_pool s e e' = rw (e, e') (_, deferred-trace _ _)
