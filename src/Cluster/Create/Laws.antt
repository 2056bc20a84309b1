-- ===== src/Cluster/Create/Laws.antt =====
-- The CCE cluster's id in the control plane's label.
use cluster_api_provider_cce.Prelude.{
  String, ◌≡◌, refl, ap, ◌∙◌, Bool, true, false, Option, none, some, List, [], lookup, insert,
  lookup-insert, ◌==◌, if◌then◌else◌,
}
use cluster_api_provider_cce.Errors.{ok}
use cluster_api_provider_cce.Go.{State, ret, ◌>>=◌, deref, wrap}
use cluster_api_provider_cce.Env.{Env}
use cluster_api_provider_cce.Call.{Call}
use cluster_api_provider_cce.Sdk.{CreateClusterResponse}
use cluster_api_provider_cce.Api.Meta.{Cluster, ClusterNetwork}
use cluster_api_provider_cce.Api.ControlPlane.{
  ControlPlane, infra_cluster_id, label_or_empty, infra_cluster_id_label, control_plane_creating,
}
use cluster_api_provider_cce.Scope.ControlPlane.{
  with_infra_cluster_id, set_label, set_infra_cluster_id, mark_true, set_conditions,
}
use cluster_api_provider_cce.Service.{Service}
use cluster_api_provider_cce.Cluster.Request.{cluster_request}
use cluster_api_provider_cce.Cluster.Create.{create_cluster}

abbrev text_of : Option String → String
text_of o = elim o as (λ _. String) [ none ↦ "" | some id ↦ id ]

text_of-if :
    (b : Bool) (value : String) (o : Option String)
    → text_of (if b then some value else o) ≡ (if b then value else text_of o)
text_of-if true value o = refl
text_of-if false value o = refl

-- A label that was written, also into a nil map, reads as its value, and every other label reads as it
-- did before.
pub label-set :
    (key other value : String) (labels : Option (List (String × String)))
    → label_or_empty other (set_label key value labels)
      ≡ (if key == other then value else label_or_empty other labels)
unfolding label_or_empty set_label lookup insert
label-set key other value none =
    ap text_of (lookup-insert key other value [])
    ∙ text_of-if (key == other) value (lookup other [])
label-set key other value (some labels) =
    ap text_of (lookup-insert key other value labels)
    ∙ text_of-if (key == other) value (lookup other labels)

-- The id that was written is the one that is read.
pub infra_cluster_id-set :
    {C : Type 0} (id : String) (cp : ControlPlane C)
    → infra_cluster_id (with_infra_cluster_id id cp) ≡ id
unfolding infra_cluster_id with_infra_cluster_id
infra_cluster_id-set id cp =
    rw (label-set infra_cluster_id_label infra_cluster_id_label id cp.meta.labels) refl

module _ {W C : Type 0} (env : Env W C) (svc : Service W) (cluster : Cluster) where
  -- Where the cluster has a network and CCE answers the request that is built from the control plane
  -- with a uid, createCluster returns the answer, the label of the control plane holds the uid, and the
  -- condition of a creation in progress is true.
  pub create-id :
      (s : State W (Call C) (ControlPlane C)) (network : ClusterNetwork) (uid : String)
      (response : CreateClusterResponse)
      → cluster.cluster_network ≡ some network
      → (svc.cce.create_cluster (cluster_request env network s.obj) s.world).0 ≡ ok response
      → response.metadata ≡ some (some uid)
      → let out = create_cluster env svc cluster s in
        (out.0 ≡ ret response)
        × ((infra_cluster_id out.1.obj ≡ uid)
            × (env.conditions.is_true control_plane_creating out.1.obj.status.conditions ≡ true))
  unfolding create_cluster set_infra_cluster_id mark_true set_conditions ◌>>=◌ with_infra_cluster_id
  create-id s network uid response en er em =
      rw (en, deref, er, wrap, em)
        (refl, (infra_cluster_id-set _ _, env.conditions.is_true-mark_true_self _ _))
