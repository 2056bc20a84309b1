-- ===== src/Controller/ControlPlane/Deletion.antt =====
-- What reconcileDelete of internal/controller/ccemanagedcontrolplane_controller.go leaves behind.
use cluster_api_provider_cce.Prelude.{◌≡◌, ◌⊎◌, inl, inr, refl, ap, ◌∙◌, Bool, true, false, [], ltb}
use cluster_api_provider_cce.Errors.{Result}
use cluster_api_provider_cce.Go.{call, State, pure, ◌>>=◌, if◌then◌else◌}
use cluster_api_provider_cce.Go.Returns.{Returns, then-Returns}
use cluster_api_provider_cce.Go.Keeps.{Keeps, Keeps-call, Keeps-wrap, keeps_rules}
use cluster_api_provider_cce.Env.{Env}
use cluster_api_provider_cce.Call.{Call}
use cluster_api_provider_cce.Api.Meta.{Cluster}
use cluster_api_provider_cce.Api.ControlPlane.{ControlPlane, managed_control_plane_finalizer}
use cluster_api_provider_cce.Service.{Service, new_service, get_credentials, build, apply_opts}
use cluster_api_provider_cce.Network.{delete_network}
use cluster_api_provider_cce.Cluster.Delete.{delete_control_plane}
use cluster_api_provider_cce.Cluster.Delete.Safety.{delete-Within}
use cluster_api_provider_cce.Controller.Requests.{CtrlResult, done}
use cluster_api_provider_cce.Controller.ControlPlane.{
  with_finalizers, remove_finalizer, dependency_count, delete_external, reconcile_delete,
  delete_requeue_after,
}

-- The object without the finalizer of control planes.
abbrev pub released : {W C : Type 0} → Env W C → ControlPlane C → ControlPlane C
released env cp =
    with_finalizers (env.finalizers.remove managed_control_plane_finalizer cp.meta.finalizers) cp

-- How a deletion ends: postponed with the object as it was, or done with the finalizer removed.
abbrev pub Deleted :
    {W C : Type 0} → Env W C → ControlPlane C → CtrlResult → ControlPlane C → Type 0
Deleted env cp r o =
    ((r ≡ (record { requeue = false; requeue_after = delete_requeue_after })) × (o ≡ cp))
    ⊎ ((r ≡ done) × (o ≡ released env cp))

module _ {W C : Type 0} (env : Env W C) (cluster : Cluster) (cp : ControlPlane C) where
  abbrev Same : State W (Call C) (ControlPlane C) → Type 0
  Same s = s.obj ≡ cp

  call-Same : {A : Type 0} (c : Call C) (f : W → Result A × W) → Keeps Same (call c f)
  call-Same c f = Keeps-call c f (λ s w h. h)

  service-Same : Keeps Same (new_service env [])
  unfolding new_service get_credentials build apply_opts
  service-Same = search (keeps_rules, call-Same) depth 12

  count-Same : Keeps Same (dependency_count env cluster)
  unfolding dependency_count
  count-Same = search (keeps_rules, call-Same)

  delete-Same : (svc : Service W) → Keeps Same (delete_control_plane env cluster svc)
  delete-Same svc = record { at = λ s e. (delete-Within env cluster svc s).holds ∙ e }

  external-Deleted :
      (s : State W (Call C) (ControlPlane C))
      → s.obj ≡ cp
      → Returns (Deleted env cp) (λ o. o ≡ cp) (delete_external env cluster s)
  unfolding delete_external delete_network remove_finalizer ◌>>=◌
  external-Deleted s e =
      then-Returns (Deleted env cp) (λ o. o ≡ cp) _ _ (Keeps-wrap _ _ service-Same)
        (λ svc.
          then-Returns (Deleted env cp) (λ o. o ≡ cp) _ _ (delete-Same svc)
            (λ a t h. inr (refl, ap (released env) h)))
        s e

  postponed-Deleted :
      (b : Bool) (s : State W (Call C) (ControlPlane C))
      → s.obj ≡ cp
      → Returns
          (Deleted env cp)
          (λ o. o ≡ cp)
          ((if b
              then pure (record { requeue = false; requeue_after = delete_requeue_after })
              else delete_external env cluster)
            s)
  unfolding if◌then◌else◌ pure
  postponed-Deleted true s e = inl (refl, e)
  postponed-Deleted false s e = external-Deleted s e

-- reconcileDelete either returns, and then it has postponed the deletion by 20 seconds with the object
-- as it was, or is done with the finalizer of control planes removed and nothing else changed; or it
-- fails or panics, and then the object, finalizers included, is as it was.
pub reconcile_delete-Deleted :
    {W C : Type 0} (env : Env W C) (cluster : Cluster) (s : State W (Call C) (ControlPlane C))
    → Returns (Deleted env s.obj) (λ o. o ≡ s.obj) (reconcile_delete env cluster s)
unfolding reconcile_delete
reconcile_delete-Deleted env cluster s =
    then-Returns (Deleted env s.obj) (λ o. o ≡ s.obj) _ _ (count-Same env cluster s.obj)
      (λ n t h. postponed-Deleted env cluster s.obj (ltb 0 n) t h) s refl
