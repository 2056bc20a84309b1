-- ===== src/Controller/Deadlock/ControlPlanes.antt =====
-- Reconcile of internal/controller/ccemanagedcontrolplane_controller.go in a stalled world.
use mathlib.Core.Bool.{false≢true}
use cluster_api_provider_cce.Prelude.{
  ℕ, suc, ◌≡◌, refl, sym, ◌∙◌, true, Bool, Option, none, some, List, [], ◌∷◌, ltb, length, arith,
}
use cluster_api_provider_cce.Errors.{Error, Result, ok, err}
use cluster_api_provider_cce.Go.{
  State, if◌then◌else◌, pure, wrap, catch, call, get_obj, defer_with, with_object, ◌>>=◌,
}
use cluster_api_provider_cce.Go.Keeps.{
  Keeps, Keeps-if, Keeps-pure, Keeps-get_obj, Keeps-bind, Keeps-then, Keeps-wrap, Keeps-attempt,
  Keeps-defer_with, keeps_rules,
}
use cluster_api_provider_cce.Env.{Env}
use cluster_api_provider_cce.Call.{Call}
use cluster_api_provider_cce.Api.Meta.{NamespacedName, Cluster}
use cluster_api_provider_cce.Api.MachinePool.{ManagedMachinePool}
use cluster_api_provider_cce.Api.ControlPlane.{ControlPlane}
use cluster_api_provider_cce.Scope.ControlPlane.{new_control_plane_scope, patch_object, close}
use cluster_api_provider_cce.Controller.Requests.{done, requeue}
use cluster_api_provider_cce.Controller.ControlPlane.{
  dependency_count, reconcile_delete, reconcile_normal, close_scope, run_scoped, with_owner,
  reconcile_object, reconcile,
}
use cluster_api_provider_cce.Controller.Deadlock.Worlds.{
  InDeletion, Stalled, Waits, read-Waits, answer-Waits, object-Waits,
}

module _ {W C : Type 0} (env : Env W C) (S : W → Type 0) (stalled : Stalled env S) where
  abbrev PlaneWaits : State W (Call C) (ControlPlane C) → Type 0
  PlaneWaits = Waits env S (InDeletion env)

  by_pools :
      (cluster : Cluster) (s : State W (Call C) (ControlPlane C))
      (r : Result (List (ManagedMachinePool C))) (w : W)
      → env.kube.list_managed_machine_pools cluster.meta.namespace cluster.meta.name s.world
        ≡ (r, w)
      → (r ≡ ok [] → ⊥)
      → S w
      → PlaneWaits s
      → PlaneWaits (reconcile_delete env cluster s).1
  unfolding reconcile_delete dependency_count wrap catch ◌>>=◌
  by_pools cluster s (err e) w l n k h = rw l (k, ((tt, h.1.0), h.1.1))
  by_pools cluster s (ok []) w l n k h = absurd (n refl)
  by_pools cluster s (ok (pool ∷ pools)) w l n k h =
      let p : ltb 0 (suc (length pools)) ≡ true = ground arith in
      rw (l, p) (k, ((tt, h.1.0), h.1.1))

  delete-Waits : (cluster : Cluster) → Keeps PlaneWaits (reconcile_delete env cluster)
  delete-Waits cluster = record {
    at = λ s h.
        by_pools cluster s _ _ refl
          (stalled.has_pools cluster.meta.namespace cluster.meta.name s.world h.0)
          (stalled.list_pools _ _ s.world h.0) h;
  }

  patch-Waits : Keeps PlaneWaits (patch_object env)
  unfolding patch_object call get_obj ◌>>=◌
  patch-Waits = record {
    at = λ s h. (stalled.patch s.obj s.world h.1.1 h.0, ((h.1.1, h.1.0), h.1.1));
  }

  close-Waits : (e : Option Error) → Keeps PlaneWaits (close_scope env e)
  unfolding close_scope close
  close-Waits e = Keeps-bind _ _ (Keeps-attempt _ patch-Waits) (λ closed. Keeps-pure _)

  scope-Waits :
      (cluster : Cluster) → Keeps PlaneWaits (new_control_plane_scope env (some cluster) true)
  unfolding new_control_plane_scope
  scope-Waits cluster = Keeps-bind _ _ Keeps-get_obj (λ cp.
      Keeps-then _ _
        (Keeps-wrap _ _ (read-Waits env S (InDeletion env) _ _ (stalled.make_helper cp)))
        (Keeps-pure _))

  chosen-Waits :
      (period : ℕ) (cluster : Cluster) (deleted : Bool)
      → deleted ≡ true
      → Keeps PlaneWaits (
          defer_with
            (if deleted then reconcile_delete env cluster else reconcile_normal env period cluster)
            (close_scope env))
  chosen-Waits period cluster deleted d =
      Keeps-defer_with _ _
        (Keeps-if _ _ _ (λ y. delete-Waits cluster) (λ n. absurd (false≢true (sym n ∙ d))))
        close-Waits

  body-Waits :
      (period : ℕ) (cluster : Cluster)
      → Keeps PlaneWaits (
          get_obj >>= λ cp.
          defer_with
            (if cp.meta.deleted
              then reconcile_delete env cluster
              else reconcile_normal env period cluster)
            (close_scope env))
  unfolding get_obj ◌>>=◌
  body-Waits period cluster = record {
    at = λ s h. (chosen-Waits period cluster s.obj.meta.deleted h.1.1.0).at s h;
  }

  scoped-Waits : (period : ℕ) (cluster : Cluster) → Keeps PlaneWaits (run_scoped env period cluster)
  unfolding run_scoped
  scoped-Waits period cluster =
      Keeps-then _ _ (Keeps-wrap _ _ (scope-Waits cluster)) (body-Waits period cluster)

  owner-Waits :
      (period : ℕ) (owner : Option Cluster) → Keeps PlaneWaits (with_owner env period owner)
  unfolding with_owner
  owner-Waits period none = Keeps-pure _
  owner-Waits period (some cluster) = search (keeps_rules, scoped-Waits)

  object_kept : (period : ℕ) → Keeps PlaneWaits (reconcile_object env period)
  unfolding reconcile_object
  object_kept period = Keeps-bind _ _ Keeps-get_obj (λ cp.
      Keeps-bind _ _ (read-Waits env S (InDeletion env) _ _ (stalled.get_owner cp.meta))
        (owner-Waits period))

  abbrev Between : State W (Call C) (Unit {0}) → Type 0
  Between = Waits env S (λ u. Unit {0})

  found-Waits :
      (period : ℕ) (r : Result (ControlPlane C))
      → ((cp : ControlPlane C) → r ≡ ok cp → InDeletion env cp)
      → Keeps Between (elim r [
        | err e ↦ if env.kube.is_not_found e then pure done else pure requeue
        | ok cp ↦ with_object cp (reconcile_object env period)
      ])
  found-Waits period (err e) k = search keeps_rules
  found-Waits period (ok cp) k =
      object-Waits env S (InDeletion env) cp (reconcile_object env period) (k cp refl)
        (object_kept period)

  pub control_plane-Waits :
      (period : ℕ) (request : NamespacedName) → Keeps Between (reconcile env period request)
  unfolding reconcile
  control_plane-Waits period request =
      answer-Waits env S _ (λ r. (cp : ControlPlane C) → r ≡ ok cp → InDeletion env cp) _ _ _
        (stalled.get_control_plane request) (stalled.control_planes request) (found-Waits period)
