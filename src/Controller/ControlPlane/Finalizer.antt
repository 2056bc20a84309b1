-- ===== src/Controller/ControlPlane/Finalizer.antt =====
-- The finalizer in reconcileNormal of internal/controller/ccemanagedcontrolplane_controller.go.
use cluster_api_provider_cce.Prelude.{String, ◌≡◌, refl, ap, ◌∙◌, Bool, true, false, List, []}
use cluster_api_provider_cce.Errors.{Result}
use cluster_api_provider_cce.Go.{State, call, when, ◌>>=◌}
use cluster_api_provider_cce.Go.Keeps.{
  Keeps, Keeps-bind, Keeps-call, Keeps-wrap, Keeps-then, Keeps-pure, keeps_rules,
}
use cluster_api_provider_cce.Go.Returns.{bind-after}
use cluster_api_provider_cce.Env.{Env}
use cluster_api_provider_cce.Call.{Call}
use cluster_api_provider_cce.Api.Meta.{Cluster}
use cluster_api_provider_cce.Api.ControlPlane.{ControlPlane, managed_control_plane_finalizer}
use cluster_api_provider_cce.Scope.ControlPlane.{patch_object}
use cluster_api_provider_cce.Service.{Service, new_service, get_credentials, build, apply_opts}
use cluster_api_provider_cce.Network.{with_vpc_id, with_subnet_id, reconcile_network}
use cluster_api_provider_cce.Network.Safety.{network-Within}
use cluster_api_provider_cce.Cluster.Reconcile.Frame.{control_plane-Same}
use cluster_api_provider_cce.Controller.ControlPlane.{
  with_finalizers, ensure_finalizer, reconcile_external,
}

-- The finalizers of `cp` with that of control planes.
abbrev pub guarded : {W C : Type 0} → Env W C → ControlPlane C → List String
guarded env cp = (env.finalizers.add managed_control_plane_finalizer cp.meta.finalizers).0

module _ {W C : Type 0} (env : Env W C) (cluster : Cluster) where
  patch-obj :
      (b : Bool) (s : State W (Call C) (ControlPlane C))
      → (when b (patch_object env) s).1.obj ≡ s.obj
  unfolding patch_object ◌>>=◌
  patch-obj true s = refl
  patch-obj false s = refl

  ensure-guarded :
      (s : State W (Call C) (ControlPlane C))
      → (ensure_finalizer env s).1.obj.meta.finalizers ≡ guarded env s.obj
  unfolding ensure_finalizer with_finalizers ◌>>=◌
  ensure-guarded s = ap (λ (o : ControlPlane C). o.meta.finalizers) (patch-obj _ _)

  module _ (l : List String) where
    abbrev Kept : State W (Call C) (ControlPlane C) → Type 0
    Kept s = s.obj.meta.finalizers ≡ l

    call-Kept : {A : Type 0} (c : Call C) (f : W → Result A × W) → Keeps Kept (call c f)
    call-Kept c f = Keeps-call c f (λ s w h. h)

    service-Kept : Keeps Kept (new_service env [])
    unfolding new_service get_credentials build apply_opts
    service-Kept = search (keeps_rules, call-Kept) depth 12

    network-Kept : (svc : Service W) → Keeps Kept (reconcile_network env cluster svc)
    unfolding with_vpc_id with_subnet_id
    network-Kept svc = record {
      at = λ s h.
          ap (λ (o : ControlPlane C). o.meta.finalizers) (network-Within env cluster svc s).holds
          ∙ h;
    }

  -- reconcileNormal that need not wait for the infrastructure leaves the control plane with the
  -- finalizers that AddFinalizer gives, whether it returns, fails or panics.
  pub reconcile_external-guarded :
      (s : State W (Call C) (ControlPlane C))
      → (reconcile_external env cluster s).1.obj.meta.finalizers ≡ guarded env s.obj
  unfolding reconcile_external
  reconcile_external-guarded s =
      bind-after (Kept (guarded env s.obj)) _ _ s
        (λ _. Keeps-bind _ _ (Keeps-wrap _ _ (service-Kept _)) (λ svc.
          Keeps-then _ _ (Keeps-wrap _ _ (network-Kept _ svc)) (
            Keeps-then _ _ (Keeps-wrap _ _ (control_plane-Same env cluster svc _)) (Keeps-pure _))))
        (ensure-guarded s)
