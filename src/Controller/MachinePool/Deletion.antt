-- ===== src/Controller/MachinePool/Deletion.antt =====
-- The finalizer in reconcileDelete of internal/controller/ccemanagedmachinepool_controller.go.
use cluster_api_provider_cce.Prelude.{String, ◌≡◌, refl, ap, ◌∙◌, List}
use cluster_api_provider_cce.Errors.{Result}
use cluster_api_provider_cce.Go.{State, call, ◌>>=◌}
use cluster_api_provider_cce.Go.Keeps.{Keeps, Keeps-call, Keeps-wrap, keeps_rules}
use cluster_api_provider_cce.Go.Returns.{Returns, then-Returns}
use cluster_api_provider_cce.Env.{Env}
use cluster_api_provider_cce.Call.{Call}
use cluster_api_provider_cce.Sdk.{CceClient}
use cluster_api_provider_cce.Api.ControlPlane.{ControlPlane}
use cluster_api_provider_cce.Api.MachinePool.{ManagedMachinePool, managed_machine_pool_finalizer}
use cluster_api_provider_cce.Service.{get_credentials, build, new_nodepool_service}
use cluster_api_provider_cce.Nodepool.Delete.{reconcile_pool_delete}
use cluster_api_provider_cce.Nodepool.Delete.Safety.{pool_delete-Within}
use cluster_api_provider_cce.Controller.Requests.{CtrlResult, done}
use cluster_api_provider_cce.Controller.MachinePool.{
  with_finalizers, remove_finalizer, reconcile_delete,
}

-- The finalizers of `pool` without that of machine pools.
abbrev pub freed : {W C : Type 0} → Env W C → ManagedMachinePool C → List String
freed env pool = env.finalizers.remove managed_machine_pool_finalizer pool.meta.finalizers

module _ {W C : Type 0} (env : Env W C) (control_plane : ControlPlane C) (l : List String) where
  abbrev Kept : ManagedMachinePool C → Type 0
  Kept o = o.meta.finalizers ≡ l

  abbrev KeptState : State W (Call C) (ManagedMachinePool C) → Type 0
  KeptState s = Kept s.obj

  call-Kept : {A : Type 0} (c : Call C) (f : W → Result A × W) → Keeps KeptState (call c f)
  call-Kept c f = Keeps-call c f (λ s w h. h)

  service-Kept : Keeps KeptState (new_nodepool_service env control_plane)
  unfolding new_nodepool_service get_credentials build
  service-Kept = search (keeps_rules, call-Kept)

  pool-Kept : (cce : CceClient W) → Keeps KeptState (reconcile_pool_delete env control_plane cce)
  pool-Kept cce = record {
    at = λ s h.
        ap (λ (o : ManagedMachinePool C). o.meta.finalizers)
          (pool_delete-Within env control_plane cce s).holds
        ∙ h;
  }

-- reconcileDelete of a machine pool that returns has removed its finalizer from the object in memory,
-- and asks for no requeue; where it fails or panics, the finalizers are as they were.
pub pool-reconcile_delete-Returns :
    {W C : Type 0} (env : Env W C) (control_plane : ControlPlane C)
    (s : State W (Call C) (ManagedMachinePool C))
    → Returns
        (λ r o. (r ≡ done) × (o.meta.finalizers ≡ freed env s.obj))
        (λ o. o.meta.finalizers ≡ s.obj.meta.finalizers)
        (reconcile_delete env control_plane s)
unfolding reconcile_delete remove_finalizer with_finalizers ◌>>=◌
pool-reconcile_delete-Returns {W = W} {C = C} env control_plane s =
    let Q = Kept env control_plane s.obj.meta.finalizers in
    let K = λ (r : CtrlResult) (o : ManagedMachinePool C).
      (r ≡ done) × (o.meta.finalizers ≡ freed env s.obj) in
    then-Returns K Q _ _ (Keeps-wrap _ _ (service-Kept env control_plane _))
      (λ cce.
        then-Returns K Q _ _ (Keeps-wrap _ _ (pool-Kept env control_plane _ cce))
          (λ u t h. (refl, ap (env.finalizers.remove managed_machine_pool_finalizer) h)))
      s refl
