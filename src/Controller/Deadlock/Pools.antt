-- ===== src/Controller/Deadlock/Pools.antt =====
-- Reconcile of internal/controller/ccemanagedmachinepool_controller.go in a stalled world.
use cluster_api_provider_cce.Prelude.{String, ◌≡◌, refl, Option, none, some}
use cluster_api_provider_cce.Errors.{Result, ok, err}
use cluster_api_provider_cce.Go.{State, if◌then◌else◌, pure, with_object}
use cluster_api_provider_cce.Go.Keeps.{
  Keeps, Keeps-modify, Keeps-if, Keeps-pure, Keeps-get_obj, Keeps-bind, Keeps-deref, Keeps-then,
  keeps_rules,
}
use cluster_api_provider_cce.Env.{Env}
use cluster_api_provider_cce.Call.{Call}
use cluster_api_provider_cce.Api.Meta.{NamespacedName, OwnerReference, Cluster, MachinePool}
use cluster_api_provider_cce.Api.ControlPlane.{ControlPlane}
use cluster_api_provider_cce.Api.MachinePool.{ManagedMachinePool}
use cluster_api_provider_cce.Scope.MachinePool.{mark_false, set_conditions}
use cluster_api_provider_cce.Controller.Requests.{done, requeue}
use cluster_api_provider_cce.Controller.MachinePool.{
  wait_for_control_plane, with_control_plane, with_cluster, fetch_owner, get_owner_machine_pool,
  with_owner, reconcile_object, reconcile,
}
use cluster_api_provider_cce.Controller.Deadlock.Worlds.{
  InDeletion, Stalled, Waits, read-Waits, answer-Waits, object-Waits,
}

module _ {W C : Type 0} (env : Env W C) (S : W → Type 0) (stalled : Stalled env S) where
  abbrev AnyPool : ManagedMachinePool C → Type 0
  AnyPool pool = Unit {0}

  abbrev PoolWaits : State W (Call C) (ManagedMachinePool C) → Type 0
  PoolWaits = Waits env S AnyPool

  wait-Waits : Keeps PoolWaits (wait_for_control_plane env)
  unfolding wait_for_control_plane mark_false set_conditions
  wait-Waits = Keeps-then _ _ (Keeps-modify _ (λ s h. h)) (Keeps-pure _)

  control_plane-Waits :
      (machine_pool : MachinePool) (r : Result (ControlPlane C))
      → ((cp : ControlPlane C) → r ≡ ok cp → InDeletion env cp)
      → Keeps PoolWaits (with_control_plane env machine_pool r)
  unfolding with_control_plane if◌then◌else◌
  control_plane-Waits machine_pool (err e) k = Keeps-pure _
  control_plane-Waits machine_pool (ok cp) k = rw ((k cp refl).1.0) wait-Waits

  cluster-Waits :
      (machine_pool : MachinePool) (r : Result Cluster)
      → Keeps PoolWaits (with_cluster env machine_pool r)
  unfolding with_cluster
  cluster-Waits machine_pool (err e) = Keeps-pure _
  cluster-Waits machine_pool (ok cluster) = Keeps-bind _ _ Keeps-get_obj (λ pool.
      Keeps-if _ _ _ (λ p. Keeps-pure _)
        (λ n. Keeps-bind _ _ (Keeps-deref _) (λ ref.
          answer-Waits env S AnyPool (λ r. (cp : ControlPlane C) → r ≡ ok cp → InDeletion env cp) _
            _ _ (stalled.get_control_plane _) (stalled.control_planes _)
            (control_plane-Waits machine_pool))))

  owner-Waits : (owner : Option MachinePool) → Keeps PoolWaits (with_owner env owner)
  unfolding with_owner
  owner-Waits none = Keeps-pure _
  owner-Waits (some machine_pool) =
      answer-Waits env S AnyPool (λ r. Unit {0}) _ _ _ (stalled.get_cluster _) (λ w h. tt)
        (λ r k. cluster-Waits machine_pool r)

  fetch-Waits :
      (namespace : String) (r : Result (Option OwnerReference))
      → Keeps PoolWaits (fetch_owner env namespace r)
  unfolding fetch_owner
  fetch-Waits namespace (err e) = search keeps_rules
  fetch-Waits namespace (ok none) = search keeps_rules
  fetch-Waits namespace (ok (some ref)) =
      Keeps-bind _ _ (read-Waits env S AnyPool _ _ (stalled.get_owner_pool _)) (λ m. Keeps-pure _)

  object_kept : Keeps PoolWaits (reconcile_object env)
  unfolding reconcile_object get_owner_machine_pool
  object_kept = search (keeps_rules, fetch-Waits, owner-Waits)

  abbrev Between : State W (Call C) (Unit {0}) → Type 0
  Between = Waits env S (λ u. Unit {0})

  found-Waits :
      (r : Result (ManagedMachinePool C))
      → Keeps Between (elim r [
        | err e ↦ if env.kube.is_not_found e then pure done else pure requeue
        | ok pool ↦ with_object pool (reconcile_object env)
      ])
  found-Waits (err e) = search keeps_rules
  found-Waits (ok pool) = object-Waits env S AnyPool pool (reconcile_object env) tt object_kept

  pub pool-Waits : (request : NamespacedName) → Keeps Between (reconcile env request)
  unfolding reconcile
  pool-Waits request =
      answer-Waits env S _ (λ r. Unit {0}) _ _ _ (stalled.get_pool request) (λ w h. tt)
        (λ r k. found-Waits r)
