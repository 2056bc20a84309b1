-- ===== src/Controller/ControlPlane/Order.antt =====
-- The order of the calls of reconcileNormal of
-- internal/controller/ccemanagedcontrolplane_controller.go.
use cluster_api_provider_cce.Prelude.{
  ℕ, String, ◌≡◌, refl, Bool, true, Option, List, [], ◌∷◌, arith,
}
use cluster_api_provider_cce.Go.{State, pure, wrap, ◌>>=◌, ◌>>◌}
use cluster_api_provider_cce.Go.Keeps.{
  Keeps, Keeps-get_obj, Keeps-deref, Keeps-wrap, Keeps-pure, Keeps-bind, Keeps-then, Keeps-when,
}
use cluster_api_provider_cce.Go.Ranks.{
  Upto, Upto-start, Upto-sample, Upto-modify, Goes-keep, Goes-bind, Goes-after, Goes-before,
  Goes-wrap, Goes-if, Goes-from, run-after,
}
use cluster_api_provider_cce.Env.{Env}
use cluster_api_provider_cce.Call.{Call}
use cluster_api_provider_cce.Api.Meta.{Cluster}
use cluster_api_provider_cce.Api.ControlPlane.{ControlPlane, managed_control_plane_finalizer}
use cluster_api_provider_cce.Scope.ControlPlane.{patch_object}
use cluster_api_provider_cce.Service.{new_service, get_credentials, build, apply_opts}
use cluster_api_provider_cce.Network.{reconcile_network}
use cluster_api_provider_cce.Network.Order.{network-Steps}
use cluster_api_provider_cce.Cluster.Frame.{patch-Keeps}
use cluster_api_provider_cce.Cluster.Ranks.{step_rank, quiet, Steps, Under, call-quiet}
use cluster_api_provider_cce.Cluster.Order.{control_plane-Steps}
use cluster_api_provider_cce.Cluster.Reconcile.{reconcile_control_plane}
use cluster_api_provider_cce.Controller.Requests.{done}
use cluster_api_provider_cce.Controller.ControlPlane.{
  with_finalizers, ensure_finalizer, reconcile_external, reconcile_normal,
}

module _ {W C : Type 0} (before : List (Call C)) (env : Env W C) (cluster : Cluster) where
  build-quiet :
      {A : Type 0} (n : ℕ) (make : W → Option A × W)
      → Keeps (Under before n) (build {O = ControlPlane C} make)
  unfolding build
  build-quiet n make = Keeps-bind _ _ (Upto-sample n _) (λ client. Keeps-deref client)

  service-quiet : (n : ℕ) → Keeps (Under before n) (new_service env [])
  unfolding new_service get_credentials apply_opts
  service-quiet n = Keeps-bind _ _ Keeps-get_obj (λ cp.
      Keeps-bind _ _ (Keeps-bind _ _ (Keeps-deref _) (λ ref. call-quiet before n _ _ tt)) (λ sec.
        Keeps-bind _ _ (build-quiet n _) (λ cce.
          Keeps-bind _ _ (build-quiet n _)
            (λ eip. Keeps-bind _ _ (build-quiet n _) (λ vpc. Keeps-pure _)))))

  -- What follows AddFinalizer.
  rest-Steps : Steps before 0 8 (
      wrap "failed to init cce service for CCEManagedControlPlane" (new_service env []) >>= λ svc.
      wrap "failed to reconcile network for CCEManagedControlPlane"
        (reconcile_network env cluster svc)
      >> (wrap "failed to reconcile control plane for CCEManagedControlPlane"
            (reconcile_control_plane env cluster svc)
          >> pure done))
  rest-Steps = Goes-after 0 8 (Keeps-wrap _ _ (service-quiet 0)) (omega arith) (λ svc.
      Goes-bind 0 2 8 (Goes-wrap 0 2 _ _ (network-Steps before env cluster svc))
        (λ _.
          Goes-before 2 8 (Goes-wrap 2 8 _ _ (control_plane-Steps before env svc cluster))
            (λ _. Keeps-pure done))
        (omega arith))

  ensure-quiet : (n : ℕ) → Keeps (Under before n) (ensure_finalizer env)
  unfolding ensure_finalizer
  ensure-quiet n = Keeps-bind _ _ Keeps-get_obj (λ cp.
      Keeps-then _ _ (Upto-modify n _) (Keeps-when _ _ (λ _. patch-Keeps (quiet before n) env)))

  external-Steps : Steps before 0 8 (reconcile_external env cluster)
  unfolding reconcile_external
  external-Steps = Goes-after 0 8 (ensure-quiet 0) (omega arith) (λ _. rest-Steps)

  normal-Steps : (period : ℕ) → Steps before 0 8 (reconcile_normal env period cluster)
  unfolding reconcile_normal
  normal-Steps period = Goes-after 0 8 (Keeps-deref _) (omega arith) (λ ref.
      Goes-if 0 8 _ _ _ external-Steps (Goes-from 0 0 8 (Goes-keep 0 (Keeps-pure _)) (omega arith)))

module _ {W C : Type 0} (env : Env W C) (cluster : Cluster)
    (s : State W (Call C) (ControlPlane C)) where
  -- reconcileNormal of a control plane, however it ends, creates a VPC, a subnet, a CCE cluster and a
  -- public address, binds the address, has a certificate made, and writes the kubeconfig's secret, each
  -- once at most and in this order. It deletes nothing, and its other calls read, pause, record an
  -- event, or patch the control plane.
  pub reconcile_normal-Ordered :
      (period : ℕ) → Upto step_rank s.trace 8 (reconcile_normal env period cluster s).1
  reconcile_normal-Ordered period =
      (normal-Steps s.trace env cluster period).at s (Upto-start s refl)

  abbrev pub added : List String × Bool
  added = env.finalizers.add managed_control_plane_finalizer s.obj.meta.finalizers

  ensured-trace :
      added.1 ≡ true
      → (ensure_finalizer env s).1.trace
        ≡ Call.patch_control_plane (with_finalizers added.0 s.obj) ∷ s.trace
  unfolding ensure_finalizer patch_object with_finalizers ◌>>=◌
  ensured-trace h = rw h refl

  -- Where the control plane does not have its finalizer yet, the first call of reconcileNormal that
  -- need not wait is the patch of the control plane with the finalizer; the calls of the steps come
  -- after it, in their order.
  pub finalizer-first :
      added.1 ≡ true
      → Upto step_rank
          (Call.patch_control_plane (with_finalizers added.0 s.obj) ∷ s.trace)
          8
          (reconcile_external env cluster s).1
  unfolding reconcile_external
  finalizer-first h =
      run-after 0 8 _ _ s (Upto-start _ (ensured-trace h)) (λ _. rest-Steps _ env cluster)
        (omega arith)
