-- ===== src/Cluster/Delete/Safety.antt =====
-- What deleting a control plane may touch: the object in memory stays as it is, and the calls are
-- those of a deletion.
use cluster_api_provider_cce.Prelude.{
  String, ◌≡◌, refl, ap, Bool, true, false, Option, none, some, List,
}
use cluster_api_provider_cce.Go.{State}
use cluster_api_provider_cce.Go.Keeps.{Keeps}
use cluster_api_provider_cce.Go.Within.{Within, Within-read, within_rules, one_more, run_within}
use cluster_api_provider_cce.Env.{Env}
use cluster_api_provider_cce.Call.{Call, CpM}
use cluster_api_provider_cce.Sdk.{ShowClusterResponse}
use cluster_api_provider_cce.Api.Meta.{Cluster}
use cluster_api_provider_cce.Api.ControlPlane.{ControlPlane, infra_cluster_id}
use cluster_api_provider_cce.Scope.ControlPlane.{scope_infra_cluster_id}
use cluster_api_provider_cce.Service.{Service}
use cluster_api_provider_cce.Service.Wait.{poll_interval}
use cluster_api_provider_cce.Service.Wait.Polls.{Keeps-wait_until}
use cluster_api_provider_cce.Cluster.Show.{missing_cluster, show_cce_cluster}
use cluster_api_provider_cce.Cluster.Delete.{
  deletion_over, poll_deleted, wait_for_cluster_deleted, accept_deletion, await_deletion,
  delete_cluster_and_wait, delete_found, delete_by_id, delete_cluster, delete_control_plane,
}

-- The calls of the deletion of one CCE cluster.
abbrev pub DeletesCluster : {C : Type 0} → String → Call C → Type 0
DeletesCluster id (Call.show_cluster i) = i ≡ id
DeletesCluster id (Call.delete_cluster i) = i ≡ id
DeletesCluster id (Call.sleep n) = n ≡ poll_interval
DeletesCluster id _ = ⊥

module _ {W C : Type 0} (env : Env W C) (cluster : Cluster) (svc : Service W) (cp : ControlPlane C)
    (before : List (Call C)) where
  abbrev Deleting : {A : Type 0} → CpM W C A → Type 0
  Deleting m = Keeps (Within (λ o. o ≡ cp) (DeletesCluster (infra_cluster_id cp)) before) m

  show-Deleting : (id : String) → id ≡ infra_cluster_id cp → Deleting (show_cce_cluster svc id)
  unfolding show_cce_cluster missing_cluster
  show-Deleting id e = search (within_rules, e)

  over-Deleting :
      (found : Option ShowClusterResponse) → Deleting (deletion_over env cluster svc found)
  unfolding deletion_over
  over-Deleting none = search within_rules
  over-Deleting (some response) = search within_rules

  wait-Deleting :
      (id : String)
      → id ≡ infra_cluster_id cp
      → Deleting (wait_for_cluster_deleted env cluster svc id)
  unfolding wait_for_cluster_deleted poll_deleted
  wait-Deleting id e =
      Keeps-wait_until _ poll_interval (search (within_rules, show-Deleting, over-Deleting))
        (λ s h. one_more (Call.sleep poll_interval) s _ refl refl h.holds h) _

  await-Deleting :
      (id : String) (accepted : Bool)
      → id ≡ infra_cluster_id cp
      → Deleting (await_deletion env cluster svc id accepted)
  unfolding await_deletion
  await-Deleting id true e = search (within_rules, wait-Deleting)
  await-Deleting id false e = search within_rules

  found-Deleting :
      (id : String) (found : Option ShowClusterResponse)
      → id ≡ infra_cluster_id cp
      → Deleting (delete_found env cluster svc id found)
  unfolding delete_found delete_cluster_and_wait accept_deletion
  found-Deleting id none e = search within_rules
  found-Deleting id (some response) e = search (within_rules, await-Deleting) depth 9

  by_id-Deleting :
      (id : String) → id ≡ infra_cluster_id cp → Deleting (delete_by_id env cluster svc id)
  unfolding delete_by_id
  by_id-Deleting id e = search (within_rules, show-Deleting, found-Deleting) depth 7

  delete-Deleting : Deleting (delete_control_plane env cluster svc)
  unfolding delete_control_plane delete_cluster scope_infra_cluster_id
  delete-Deleting =
      Within-read infra_cluster_id (delete_by_id env cluster svc)
        (λ o e. by_id-Deleting (infra_cluster_id o) (ap infra_cluster_id e))

-- Deleting a control plane, however it ends, leaves the object in memory as it is, and makes no calls
-- but to show and to delete the CCE cluster of its label, and to pause between two polls.
pub delete-Within :
    {W C : Type 0} (env : Env W C) (cluster : Cluster) (svc : Service W)
    (s : State W (Call C) (ControlPlane C))
    → Within
        (λ o. o ≡ s.obj)
        (DeletesCluster (infra_cluster_id s.obj))
        s.trace
        (delete_control_plane env cluster svc s).1
delete-Within env cluster svc s = run_within _ _ _ (delete-Deleting env cluster svc s.obj) s refl
