-- ===== src/Controller/ControlPlane/Progress.antt =====
-- reconcileDelete of internal/controller/ccemanagedcontrolplane_controller.go in a world that carries the
-- deletion out.
use cluster_api_provider_cce.Prelude.{
  ℕ, ◌<◌, String, ◌≡◌, refl, sym, ap, ◌∙◌, inl, inr, false, some, List, [], ◌∷◌, ◌==◌, arith,
}
use cluster_api_provider_cce.Errors.{ok}
use cluster_api_provider_cce.Go.{State, Outcome, ret, fail, panic, deref, wrap, catch, ◌>>=◌}
use cluster_api_provider_cce.Go.Returns.{Returns}
use cluster_api_provider_cce.Env.{Env}
use cluster_api_provider_cce.Call.{Call}
use cluster_api_provider_cce.Sdk.{ShowClusterResponse}
use cluster_api_provider_cce.Api.Meta.{Cluster, ObjectReference}
use cluster_api_provider_cce.Api.ControlPlane.{ControlPlane, infra_cluster_id}
use cluster_api_provider_cce.Service.{
  Service, access_key, secret_key, get_credentials, build, apply_opts, new_service,
}
use cluster_api_provider_cce.Service.Wait.{max_polls}
use cluster_api_provider_cce.Network.{delete_network}
use cluster_api_provider_cce.Cluster.Delete.{delete_control_plane}
use cluster_api_provider_cce.Cluster.Delete.Progress.{Leaves, delete-succeeds}
use cluster_api_provider_cce.Controller.Requests.{CtrlResult, done}
use cluster_api_provider_cce.Controller.ControlPlane.{
  delete_requeue_after, dependency_count, delete_external, reconcile_delete, remove_finalizer,
}
use cluster_api_provider_cce.Controller.ControlPlane.Deletion.{
  Deleted, released, reconcile_delete-Deleted,
}

-- What the world gives to a deletion that goes well, from `w`: no machine pools, the secret, the clients, the
-- cluster of the label `id`, which is accepted for deletion and is gone within the polls.
pub record Cooperates {W C : Type 0} (env : Env W C) (cluster : Cluster) (cp : ControlPlane C)
    (w : W) : Type 0 where
  pub listed : W
  pub authorised : W
  pub with_cce : W
  pub with_eip : W
  pub connected : W
  pub found : W
  pub accepted : W
  pub ref : ObjectReference
  pub sec : List (String × String)
  pub svc : Service W
  pub response : ShowClusterResponse
  pub polls : ℕ
  pub no_pools :
      env.kube.list_managed_machine_pools cluster.meta.namespace cluster.meta.name w
      ≡ (ok [], listed)
  pub has_ref : cp.spec.identity_ref ≡ some ref
  pub has_secret :
      env.kube.get_secret (record { namespace = cp.meta.namespace; name = ref.name }) listed
      ≡ (ok sec, authorised)
  pub makes_cce :
      env.new_cce_client cp.spec.region (access_key sec) (secret_key sec) authorised
      ≡ (some svc.cce, with_cce)
  pub makes_eip :
      env.new_eip_client cp.spec.region (access_key sec) (secret_key sec) with_cce
      ≡ (some svc.eip, with_eip)
  pub makes_vpc :
      env.new_vpc_client cp.spec.region (access_key sec) (secret_key sec) with_eip
      ≡ (some svc.vpc, connected)
  pub has_label : (infra_cluster_id cp == "") ≡ false
  pub shows : svc.cce.show_cluster (infra_cluster_id cp) connected ≡ (ok response, found)
  pub accepts : svc.cce.delete_cluster (infra_cluster_id cp) found ≡ (ok tt, accepted)
  pub leaves : Leaves env cluster svc (infra_cluster_id cp) polls accepted
  pub in_time : polls < max_polls

module _ {W C : Type 0} (env : Env W C) (cluster : Cluster)
    (s : State W (Call C) (ControlPlane C)) where
  abbrev counted : Cooperates env cluster s.obj s.world → State W (Call C) (ControlPlane C)
  counted h = record s { world = h.listed; trace = Call.read "CCEManagedMachinePoolList" ∷ s.trace }

  abbrev served : Cooperates env cluster s.obj s.world → State W (Call C) (ControlPlane C)
  served h = record s {
    world = h.connected;
    trace =
        Call.get_secret (record { namespace = s.obj.meta.namespace; name = h.ref.name })
        ∷ (Call.read "CCEManagedMachinePoolList" ∷ s.trace);
  }

  count-none :
      (h : Cooperates env cluster s.obj s.world)
      → dependency_count env cluster s ≡ (ret 0, counted h)
  unfolding dependency_count catch ◌>>=◌
  count-none h = rw (wrap, h.no_pools) refl

  service-made :
      (h : Cooperates env cluster s.obj s.world)
      → new_service env [] (counted h) ≡ (ret h.svc, served h)
  unfolding new_service get_credentials build apply_opts ◌>>=◌
  service-made h = rw (h.has_ref, deref, h.has_secret, h.makes_cce, h.makes_eip, h.makes_vpc) refl

  deletes :
      (h : Cooperates env cluster s.obj s.world)
      → (delete_control_plane env cluster h.svc (served h)).0 ≡ ret tt
  deletes h =
      delete-succeeds env cluster h.svc (served h) h.response h.found h.accepted h.polls h.has_label
        h.shows h.accepts h.leaves h.in_time

  external-done :
      (h : Cooperates env cluster s.obj s.world)
      → (delete_external env cluster (counted h)).0 ≡ ret done
  unfolding delete_external delete_network remove_finalizer wrap catch ◌>>=◌
  external-done h = rw (service-made h) (rw (deletes h) refl)

  returns-done :
      (h : Cooperates env cluster s.obj s.world) → (reconcile_delete env cluster s).0 ≡ ret done
  unfolding reconcile_delete ◌>>=◌
  returns-done h = rw (count-none h) (external-done h)

  -- A postponement is no end.
  not_both :
      (r : CtrlResult)
      → r ≡ (record { requeue = false; requeue_after = delete_requeue_after })
      → Path (Outcome CtrlResult) (ret r) (ret done)
      → ⊥
  not_both r p e =
      let q : r ≡ done = cc in
      let z : delete_requeue_after ≡ 0 =
        sym (ap (λ (x : CtrlResult). x.requeue_after) p)
        ∙ ap (λ (x : CtrlResult). x.requeue_after) q in
      omega arith

  by_outcome :
      (r : Outcome CtrlResult × State W (Call C) (ControlPlane C))
      → r.0 ≡ ret done
      → Returns (Deleted env s.obj) (λ o. o ≡ s.obj) r
      → r.1.obj ≡ released env s.obj
  by_outcome (ret a, t) e (inr (d, h)) = h
  by_outcome (ret a, t) e (inl (p, h)) = absurd (not_both a p e)
  by_outcome (fail x, t) e h = cc
  by_outcome (panic, t) e h = cc

  -- Where the world cooperates, one reconcileDelete deletes the CCE cluster and returns done, with the
  -- finalizer of control planes removed from the object.
  pub reconcile_delete-completes :
      (h : Cooperates env cluster s.obj s.world)
      → ((reconcile_delete env cluster s).0 ≡ ret done)
        × ((reconcile_delete env cluster s).1.obj ≡ released env s.obj)
  reconcile_delete-completes h = (
    returns-done h,
    by_outcome (reconcile_delete env cluster s) (returns-done h)
        (reconcile_delete-Deleted env cluster s),
  )
