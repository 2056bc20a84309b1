-- ===== src/Controller/MachinePool/Progress.antt =====
-- reconcileDelete of internal/controller/ccemanagedmachinepool_controller.go in a world that carries the
-- deletion out.
use cluster_api_provider_cce.Prelude.{ℕ, ◌<◌, String, ◌≡◌, refl, Option, some, List, ◌∷◌}
use cluster_api_provider_cce.Errors.{ok}
use cluster_api_provider_cce.Go.{State, Outcome, ret, fail, panic, deref, wrap, catch, ◌>>=◌}
use cluster_api_provider_cce.Go.Returns.{Returns}
use cluster_api_provider_cce.Env.{Env}
use cluster_api_provider_cce.Call.{Call}
use cluster_api_provider_cce.Sdk.{CceClient, NodePoolStatus}
use cluster_api_provider_cce.Api.Meta.{ObjectReference}
use cluster_api_provider_cce.Api.ControlPlane.{ControlPlane, infra_cluster_id}
use cluster_api_provider_cce.Api.MachinePool.{ManagedMachinePool, infra_machine_pool_id}
use cluster_api_provider_cce.Service.{
  access_key, secret_key, get_credentials, build, new_nodepool_service,
}
use cluster_api_provider_cce.Service.Wait.{max_polls}
use cluster_api_provider_cce.Nodepool.Delete.{deleting_reason, reconcile_pool_delete}
use cluster_api_provider_cce.Nodepool.Delete.Report.{not_ready}
use cluster_api_provider_cce.Nodepool.Delete.Progress.{
  Leaves, Accepts, response_of, pool-delete-succeeds,
}
use cluster_api_provider_cce.Controller.Requests.{CtrlResult, done}
use cluster_api_provider_cce.Controller.MachinePool.{remove_finalizer, reconcile_delete}
use cluster_api_provider_cce.Controller.MachinePool.Deletion.{freed, pool-reconcile_delete-Returns}

-- What the world gives to the deletion of a node pool that goes well, from `w`: the secret, the client, and the node
-- pool of the two labels, which is accepted for deletion and is gone within the polls.
pub record Cooperates {W C : Type 0} (env : Env W C) (control_plane : ControlPlane C)
    (pool : ManagedMachinePool C) (w : W) : Type 0 where
  pub authorised : W
  pub connected : W
  pub found : W
  pub accepted : W
  pub ref : ObjectReference
  pub sec : List (String × String)
  pub cce : CceClient W
  pub kind : String
  pub version : String
  pub uid : Option (Option String)
  pub status : Option NodePoolStatus
  pub polls : ℕ
  pub has_ref : control_plane.spec.identity_ref ≡ some ref
  pub has_secret :
      env.kube.get_secret (record { namespace = control_plane.meta.namespace; name = ref.name }) w
      ≡ (ok sec, authorised)
  pub makes_cce :
      env.new_cce_client control_plane.spec.region (access_key sec) (secret_key sec) authorised
      ≡ (some cce, connected)
  pub shows :
      cce.show_node_pool (infra_cluster_id control_plane) (infra_machine_pool_id pool) connected
      ≡ (ok (response_of kind version uid status), found)
  pub accepts :
      cce.delete_node_pool
        (infra_cluster_id control_plane)
        (infra_machine_pool_id pool)
        (env.kube.patch_machine_pool
          (not_ready env control_plane cce deleting_reason "" pool)
          found).1
      ≡ (ok tt, accepted)
  pub leaves : Leaves env control_plane cce (infra_machine_pool_id pool) polls accepted
  pub in_time : polls < max_polls

module _ {W C : Type 0} (env : Env W C) (accepts : Accepts env) where
  module _ (control_plane : ControlPlane C) (s : State W (Call C) (ManagedMachinePool C)) where
    abbrev served :
        Cooperates env control_plane s.obj s.world → State W (Call C) (ManagedMachinePool C)
    served h = record s {
      world = h.connected;
      trace =
          Call.get_secret (record { namespace = control_plane.meta.namespace; name = h.ref.name })
          ∷ s.trace;
    }

    service-made :
        (h : Cooperates env control_plane s.obj s.world)
        → new_nodepool_service env control_plane s ≡ (ret h.cce, served h)
    unfolding new_nodepool_service get_credentials build ◌>>=◌
    service-made h = rw (h.has_ref, deref, h.has_secret, h.makes_cce) refl

    deletes :
        (h : Cooperates env control_plane s.obj s.world)
        → (reconcile_pool_delete env control_plane h.cce (served h)).0 ≡ ret tt
    deletes h =
        pool-delete-succeeds env control_plane h.cce accepts (served h) h.kind h.version h.uid
          h.status h.found h.accepted h.polls h.shows h.accepts h.leaves h.in_time

    returns-done :
        (h : Cooperates env control_plane s.obj s.world)
        → (reconcile_delete env control_plane s).0 ≡ ret done
    unfolding reconcile_delete remove_finalizer wrap catch ◌>>=◌
    returns-done h = rw (service-made h) (rw (deletes h) refl)

  by_outcome :
      (pool : ManagedMachinePool C)
      (r : Outcome CtrlResult × State W (Call C) (ManagedMachinePool C))
      → r.0 ≡ ret done
      → Returns
          (λ a o. (a ≡ done) × (o.meta.finalizers ≡ freed env pool))
          (λ o. o.meta.finalizers ≡ pool.meta.finalizers)
          r
      → r.1.obj.meta.finalizers ≡ freed env pool
  by_outcome pool (ret a, t) e (d, h) = h
  by_outcome pool (fail x, t) e h = cc
  by_outcome pool (panic, t) e h = cc

  -- Where the world cooperates and accepts patches, one reconcileDelete deletes the node pool and returns
  -- done, with the finalizer of machine pools removed from the object.
  pub pool-reconcile_delete-completes :
      (control_plane : ControlPlane C) (s : State W (Call C) (ManagedMachinePool C))
      → Cooperates env control_plane s.obj s.world
      → ((reconcile_delete env control_plane s).0 ≡ ret done)
        × ((reconcile_delete env control_plane s).1.obj.meta.finalizers ≡ freed env s.obj)
  pool-reconcile_delete-completes control_plane s h = (
    returns-done control_plane s h,
    by_outcome s.obj (reconcile_delete env control_plane s) (returns-done control_plane s h)
        (pool-reconcile_delete-Returns env control_plane s),
  )
