-- ===== src/Cluster/Delete/Progress.antt =====
-- DeleteControlPlane of pkg/cloud/services/cce/cluster.go where the cloud carries the deletion out.
use cluster_api_provider_cce.Prelude.{
  ◌<>◌, ℕ, zero, suc, ◌<◌, String, ◌≡◌, refl, ap, ◌∙◌, true, false, some, ◌∷◌, ◌==◌, arith, eq_self,
}
use cluster_api_provider_cce.Errors.{Error, ok, err}
use cluster_api_provider_cce.Go.{State, ret, deref, catch, wrap, ◌>>=◌}
use cluster_api_provider_cce.Go.Returns.{wrap-ret}
use cluster_api_provider_cce.Env.{Env}
use cluster_api_provider_cce.Call.{Call}
use cluster_api_provider_cce.Sdk.{ClusterStatus, ShowClusterResponse}
use cluster_api_provider_cce.Api.Meta.{Cluster}
use cluster_api_provider_cce.Api.ControlPlane.{ControlPlane, infra_cluster_id}
use cluster_api_provider_cce.Scope.ControlPlane.{scope_infra_cluster_id}
use cluster_api_provider_cce.Service.{Service}
use cluster_api_provider_cce.Service.Wait.{wait_until, poll_interval, max_polls}
use cluster_api_provider_cce.Service.Wait.Polls.{wait-yes, wait-no}
use cluster_api_provider_cce.Cluster.Show.{is_404, missing_cluster, show_cce_cluster}
use cluster_api_provider_cce.Cluster.Delete.{
  deletion_over, poll_deleted, wait_for_cluster_deleted, accept_deletion, await_deletion,
  delete_cluster_and_wait, delete_found, delete_by_id, delete_cluster, delete_control_plane,
}

module _ {W C : Type 0} (env : Env W C) (cluster : Cluster) (svc : Service W) (id : String) where
  -- From the world `w`, the cluster is shown `n` times in deletion, and is then gone.
  pub data Leaves : ℕ → W → Type 0 where
    gone :
        {w w' : W} {e : Error}
        → svc.cce.show_cluster id w ≡ (err e, w')
        → is_404 e ≡ true
        → Leaves zero w
    deleting :
        {n : ℕ} {w w' : W} {status : ClusterStatus}
        → svc.cce.show_cluster id w ≡ (ok (record { status = some status }), w')
        → status.phase ≡ some env.enums.deleting
        → Leaves n w'
        → Leaves (suc n) w

  abbrev shown : State W (Call C) (ControlPlane C) → W → State W (Call C) (ControlPlane C)
  shown s w' = record s { world = w'; trace = Call.show_cluster id ∷ s.trace }

  poll-gone :
      (s : State W (Call C) (ControlPlane C)) (w' : W) (e : Error)
      → svc.cce.show_cluster id s.world ≡ (err e, w')
      → is_404 e ≡ true
      → poll_deleted env cluster svc id s ≡ (ret true, shown s w')
  unfolding poll_deleted show_cce_cluster missing_cluster deletion_over catch ◌>>=◌
  poll-gone s w' e h g = rw (h, g) refl

  poll-deleting :
      (s : State W (Call C) (ControlPlane C)) (w' : W) (status : ClusterStatus)
      → svc.cce.show_cluster id s.world ≡ (ok (record { status = some status }), w')
      → status.phase ≡ some env.enums.deleting
      → poll_deleted env cluster svc id s ≡ (ret false, shown s w')
  unfolding poll_deleted show_cce_cluster deletion_over catch ◌>>=◌
  poll-deleting s w' status h p = rw (h, deref, p, eq_self env.enums.deleting) refl

  -- The wait ends well where the cluster leaves within the polls.
  wait-ends :
      (n max : ℕ) (s : State W (Call C) (ControlPlane C))
      → n < max
      → Leaves n s.world
      → (wait_until (poll_deleted env cluster svc id) poll_interval max s).0 ≡ ret tt
  wait-ends n zero s l h = absurd (omega arith)
  wait-ends zero (suc max) s l (gone h g) =
      ap (λ r. r.0) (wait-yes _ poll_interval max s _ (poll-gone s _ _ h g))
  wait-ends (suc n) (suc max) s l (deleting h p rest) =
      ap (λ r. r.0) (wait-no _ poll_interval max s _ (poll-deleting s _ _ h p))
      ∙ wait-ends n max _ (omega arith) rest

  deletion-ends :
      (n : ℕ) (w' : W) (s : State W (Call C) (ControlPlane C))
      → svc.cce.delete_cluster id s.world ≡ (ok tt, w')
      → n < max_polls
      → Leaves n w'
      → (delete_cluster_and_wait env cluster svc id s).0 ≡ ret tt
  unfolding delete_cluster_and_wait accept_deletion await_deletion wait_for_cluster_deleted catch
      ◌>>=◌
  deletion-ends n w' s h l rest =
      let t = record s { world = w'; trace = Call.delete_cluster id ∷ s.trace } in
      rw h (
        wrap-ret ("failed waiting for cce cluster " <> cluster.meta.name <> " to delete")
          (wait_until (poll_deleted env cluster svc id) poll_interval max_polls) t tt
          (wait-ends n max_polls t l rest))

-- A CCE cluster that is there, whose deletion CCE accepts, and that is gone after `n` more polls, is
-- deleted without an error, where `n` is below the number of polls.
pub delete-succeeds :
    {W C : Type 0} (env : Env W C) (cluster : Cluster) (svc : Service W)
    (s : State W (Call C) (ControlPlane C)) (found : ShowClusterResponse) (w w' : W) (n : ℕ)
    → (infra_cluster_id s.obj == "") ≡ false
    → svc.cce.show_cluster (infra_cluster_id s.obj) s.world ≡ (ok found, w)
    → svc.cce.delete_cluster (infra_cluster_id s.obj) w ≡ (ok tt, w')
    → Leaves env cluster svc (infra_cluster_id s.obj) n w'
    → n < max_polls
    → (delete_control_plane env cluster svc s).0 ≡ ret tt
unfolding delete_control_plane delete_cluster scope_infra_cluster_id delete_by_id show_cce_cluster
    delete_found catch ◌>>=◌
delete-succeeds env cluster svc s found w w' n h hs hd hl l =
    rw (h, wrap, hs)
      (wrap-ret "unable to delete CCE cluster"
        (delete_cluster_and_wait env cluster svc (infra_cluster_id s.obj))
        (record s { world = w; trace = Call.show_cluster (infra_cluster_id s.obj) ∷ s.trace }) tt
        (deletion-ends env cluster svc (infra_cluster_id s.obj) n w' _ hd l hl))
