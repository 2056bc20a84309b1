-- ===== src/Controller/ControlPlane/Whole.antt =====
-- Whole reconciliations of control planes, from the request to the last patch:
-- internal/controller/ccemanagedcontrolplane_controller.go.
use cluster_api_provider_cce.Prelude.{
  ℕ, ◌≡◌, refl, Bool, true, false, Option, none, some, List, ◌∷◌,
}
use cluster_api_provider_cce.Errors.{ok}
use cluster_api_provider_cce.Go.{
  State, ret, attempt, defer_with, wrap, catch, with_object, if◌then◌else◌, ◌>>=◌,
}
use cluster_api_provider_cce.Env.{Env}
use cluster_api_provider_cce.Call.{Call, CpM}
use cluster_api_provider_cce.Api.Meta.{Cluster, NamespacedName}
use cluster_api_provider_cce.Api.ControlPlane.{ControlPlane}
use cluster_api_provider_cce.Scope.ControlPlane.{new_control_plane_scope, patch_object, close}
use cluster_api_provider_cce.Controller.Requests.{done}
use cluster_api_provider_cce.Controller.ControlPlane.{
  close_scope, run_scoped, with_owner, reconcile_object, reconcile_delete, reconcile,
}
use cluster_api_provider_cce.Controller.ControlPlane.Closing.{deferred-trace, close-obj}
use cluster_api_provider_cce.Controller.ControlPlane.Deletion.{released}
use cluster_api_provider_cce.Controller.ControlPlane.Progress.{
  Cooperates, reconcile_delete-completes,
}

module _ {W C : Type 0} (env : Env W C) where
  close-ret :
      (s : State W (Call C) (ControlPlane C))
      → (env.kube.patch_control_plane s.obj s.world).0 ≡ ok tt
      → (close_scope env none s).0 ≡ ret none
  unfolding close_scope close patch_object ◌>>=◌ attempt
  close-ret s h = rw h refl

  -- A body that returns, and a patch that succeeds: the deferred close changes nothing.
  deferred-ret :
      {A : Type 0} (m : CpM W C A) (s : State W (Call C) (ControlPlane C)) (a : A)
      → (m s).0 ≡ ret a
      → (env.kube.patch_control_plane (m s).1.obj (m s).1.world).0 ≡ ok tt
      → ((defer_with m (close_scope env) s).0 ≡ ret a)
        × ((defer_with m (close_scope env) s).1.obj ≡ (m s).1.obj)
  unfolding defer_with
  deferred-ret m s a h p = rw (h, close-ret (m s).1 p) (refl, close-obj _ _ _)

  if_true : {A : Type 0} (b : Bool) (m n : CpM W C A) → b ≡ true → (if b then m else n) ≡ m
  unfolding if◌then◌else◌
  if_true b m n h = rw h refl

  -- The two reads that come before a decision.
  abbrev pub read_both : W → State W (Call C) (Unit {0}) → State W (Call C) (Unit {0})
  read_both w s = record s {
    world = w;
    trace = Call.read "Cluster" ∷ (Call.read "CCEManagedControlPlane" ∷ s.trace);
  }

  abbrev pub is_idle : ControlPlane C → Option Cluster → Bool
  is_idle cp none = true
  is_idle cp (some cluster) = env.kube.is_paused cluster cp.meta

  idle-done :
      (period : ℕ) (cp : ControlPlane C) (owner : Option Cluster)
      (s : State W (Call C) (ControlPlane C))
      → s.obj ≡ cp
      → is_idle cp owner ≡ true
      → with_owner env period owner s ≡ (ret done, s)
  unfolding with_owner ◌>>=◌
  idle-done period cp none s e h = refl
  idle-done period cp (some cluster) s e h = rw (e, h) refl

  module _ (period : ℕ) (request : NamespacedName) (s : State W (Call C) (Unit {0}))
      (cp : ControlPlane C) (w w' : W)
      (got : env.kube.get_control_plane request s.world ≡ (ok cp, w)) where
    abbrev loaded : W → State W (Call C) (ControlPlane C)
    loaded v = record { world = v; obj = cp; trace = (read_both v s).trace }

    -- A control plane that is found, and whose owner is not set yet or is paused with it, is left alone:
    -- Reconcile returns done after the reads of the two objects, and calls nothing else.
    pub reconcile-idle :
        (owner : Option Cluster)
        → env.kube.get_owner_cluster cp.meta w ≡ (ok owner, w')
        → is_idle cp owner ≡ true
        → reconcile env period request s ≡ (ret done, read_both w' s)
    unfolding reconcile with_object reconcile_object ◌>>=◌
    reconcile-idle owner o h = rw (got, o, idle-done period cp owner (loaded w') refl h) refl

    -- A control plane in deletion, not paused with its owner, where the world cooperates with the
    -- deletion and the API server accepts the patch: one Reconcile returns done, and its last call is
    -- the patch of the control plane without the finalizer.
    pub deletion-persisted :
        (cluster : Cluster) (w'' : W)
        → env.kube.get_owner_cluster cp.meta w ≡ (ok (some cluster), w')
        → env.kube.is_paused cluster cp.meta ≡ false
        → env.kube.new_control_plane_helper cp w' ≡ (ok tt, w'')
        → cp.meta.deleted ≡ true
        → Cooperates env cluster cp w''
        → ((v : W) → (env.kube.patch_control_plane (released env cp) v).0 ≡ ok tt)
        → ((reconcile env period request s).0 ≡ ret done)
          × ((t : List (Call C)) × ((reconcile env period request s).1.trace
                ≡ Call.patch_control_plane (released env cp) ∷ t))
    unfolding reconcile with_object reconcile_object with_owner run_scoped new_control_plane_scope
        ◌>>=◌
    deletion-persisted cluster w'' o p n d h accepts =
        let t : State W (Call C) (ControlPlane C) = record {
          world = w'';
          obj = cp;
          trace = Call.read "patch helper" ∷ (read_both w'' s).trace;
        } in
        let (r, freed) = reconcile_delete-completes env cluster t h in
        let patched : (env.kube.patch_control_plane (reconcile_delete env cluster t).1.obj
              (reconcile_delete env cluster t).1.world).0
            ≡ ok tt =
          rw freed (accepts _) in
        let (a, b) = deferred-ret (reconcile_delete env cluster) t done r patched in
        rw
          (
            got,
            o,
            p,
            wrap,
            catch,
            n,
            if_true _ _ _ d,
            a,
            deferred-trace env (reconcile_delete env cluster) t,
            b,
            freed,
          )
          (refl, (_, refl))
