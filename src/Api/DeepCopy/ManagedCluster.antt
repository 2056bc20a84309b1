-- ===== src/Api/DeepCopy/ManagedCluster.antt =====
-- Deep copies of CCEManagedCluster and its parts, in zz_generated.deepcopy.go.
use cluster_api_provider_cce.Prelude.{String}
use cluster_api_provider_cce.Memory.{Pointer, Mem, pure, ◌>>=◌}
use cluster_api_provider_cce.Memory.Copies.{new_copy, copy_all}
use cluster_api_provider_cce.Api.Memory.{
  Layouts, Address, ClusterSpec, ClusterStatus, ManagedCluster, ManagedClusterList,
}
use cluster_api_provider_cce.Api.Memory.Cells.{Cell}
use cluster_api_provider_cce.Api.DeepCopy.{Library}
use cluster_api_provider_cce.Api.Memory.Kinds.{
  domains_kind, cluster_spec_kind, cluster_status_kind, cluster_kind, clusters_kind,
  cluster_list_kind,
}

module _ {L : Layouts} where
  unfoldable pub copy_cluster_spec_into : ClusterSpec → Mem (Cell L) (ClusterSpec)
  copy_cluster_spec_into x = pure x

  unfoldable pub copy_cluster_spec : Pointer → Mem (Cell L) Pointer
  copy_cluster_spec = new_copy cluster_spec_kind copy_cluster_spec_into

module _ {L V : Layouts} (lib : Library L V) where
  -- `(*out)[key] = *val.DeepCopy()`
  unfoldable pub copy_domain : (String × L.Domain) → Mem (Cell L) (String × L.Domain)
  copy_domain (key, val) = do val' ← lib.domain.copy val; pure (key, val')

  unfoldable pub copy_cluster_status_into :
      ClusterStatus L Address → Mem (Cell L) (ClusterStatus L Address)
  copy_cluster_status_into status = do
    domains ← new_copy domains_kind (copy_all copy_domain) status.failure_domains
    pure (record status { failure_domains = domains })

  unfoldable pub copy_cluster_status : Pointer → Mem (Cell L) Pointer
  copy_cluster_status = new_copy cluster_status_kind copy_cluster_status_into

  unfoldable pub copy_cluster_into :
      ManagedCluster L Address → Mem (Cell L) (ManagedCluster L Address)
  copy_cluster_into x = do
    meta ← lib.meta.copy x.meta
    status ← copy_cluster_status_into x.status
    pure (record x { meta = meta; status = status })

  unfoldable pub copy_cluster : Pointer → Mem (Cell L) Pointer
  copy_cluster = new_copy cluster_kind copy_cluster_into

  unfoldable pub copy_cluster_list_into :
      ManagedClusterList L Address → Mem (Cell L) (ManagedClusterList L Address)
  copy_cluster_list_into x = do
    list_meta ← lib.list_meta.copy x.list_meta
    items ← new_copy clusters_kind (copy_all copy_cluster_into) x.items
    pure (record x { list_meta = list_meta; items = items })

  unfoldable pub copy_cluster_list : Pointer → Mem (Cell L) Pointer
  copy_cluster_list = new_copy cluster_list_kind copy_cluster_list_into
