-- ===== src/Cluster/Delete/Early.antt =====
-- DeleteControlPlane of pkg/cloud/services/cce/cluster.go where the cluster stays in another phase.
use cluster_api_provider_cce.Prelude.{String, ◌≡◌, refl, true, false, some, ◌∷◌, ◌==◌}
use cluster_api_provider_cce.Errors.{ok}
use cluster_api_provider_cce.Go.{State, ret, deref, wrap, catch, ◌>>=◌}
use cluster_api_provider_cce.Env.{Env}
use cluster_api_provider_cce.Call.{Call}
use cluster_api_provider_cce.Sdk.{ClusterStatus, ShowClusterResponse}
use cluster_api_provider_cce.Api.Meta.{Cluster}
use cluster_api_provider_cce.Api.ControlPlane.{ControlPlane, infra_cluster_id}
use cluster_api_provider_cce.Scope.ControlPlane.{scope_infra_cluster_id}
use cluster_api_provider_cce.Service.{Service}
use cluster_api_provider_cce.Service.Wait.{poll_interval}
use cluster_api_provider_cce.Service.Wait.Polls.{wait-yes}
use cluster_api_provider_cce.Cluster.Show.{show_cce_cluster}
use cluster_api_provider_cce.Cluster.Delete.{
  deletion_over, poll_deleted, wait_for_cluster_deleted, accept_deletion, await_deletion,
  delete_cluster_and_wait, delete_found, delete_by_id, delete_cluster, delete_control_plane,
}

module _ {W C : Type 0} (env : Env W C) (cluster : Cluster) (svc : Service W)
    (status : ClusterStatus) (phase : String) (in_phase : status.phase ≡ some phase)
    (other : (phase == env.enums.deleting) ≡ false) where
  poll-early :
      (id : String) (s : State W (Call C) (ControlPlane C)) (w : W)
      → svc.cce.show_cluster id s.world ≡ (ok (record { status = some status }), w)
      → poll_deleted env cluster svc id s
        ≡ (ret true, record s { world = w; trace = Call.show_cluster id ∷ s.trace })
  unfolding poll_deleted show_cce_cluster deletion_over catch ◌>>=◌
  poll-early id s w h = rw (h, deref, in_phase, other) refl

  -- A CCE cluster whose deletion CCE accepts, and that is shown next in any phase but that of a deletion,
  -- such as the one it had before: DeleteControlPlane returns without an error after that one look.
  pub delete-early :
      (s : State W (Call C) (ControlPlane C)) (found : ShowClusterResponse) (w w' w'' : W)
      → let id = infra_cluster_id s.obj in
        (id == "") ≡ false
        → svc.cce.show_cluster id s.world ≡ (ok found, w)
        → svc.cce.delete_cluster id w ≡ (ok tt, w')
        → svc.cce.show_cluster id w' ≡ (ok (record { status = some status }), w'')
        → delete_control_plane env cluster svc s ≡ (
          ret tt,
          record s {
            world = w'';
            trace =
                Call.show_cluster id ∷ (Call.delete_cluster id ∷ (Call.show_cluster id ∷ s.trace));
          },
        )
  unfolding delete_control_plane delete_cluster scope_infra_cluster_id delete_by_id show_cce_cluster
      delete_found delete_cluster_and_wait accept_deletion await_deletion wait_for_cluster_deleted
      catch ◌>>=◌
  delete-early s found w w' w'' h hs hd hp =
      let id = infra_cluster_id s.obj in
      let t : State W (Call C) (ControlPlane C) = record s {
        world = w';
        trace = Call.delete_cluster id ∷ (Call.show_cluster id ∷ s.trace);
      } in
      rw (h, wrap, hs, hd, wait-yes _ poll_interval 39 t _ (poll-early id t w'' hp)) refl
