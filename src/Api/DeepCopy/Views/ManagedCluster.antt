-- ===== src/Api/DeepCopy/Views/ManagedCluster.antt =====
-- The views of CCEManagedCluster and its parts.
use cluster_api_provider_cce.Prelude.{String, Bool, refl, Option}
use cluster_api_provider_cce.Memory.Copies.{Copied, plain}
use cluster_api_provider_cce.Memory.Copies.Lists.{list}
use cluster_api_provider_cce.Memory.Copies.Pointers.{pointer}
use cluster_api_provider_cce.Memory.Copies.Structs.{both, struct, Fieldwise}
use cluster_api_provider_cce.Api.Memory.{
  Layouts, Address, TypeMeta, ClusterSpec, ClusterStatus, ManagedCluster, ManagedClusterList,
}
use cluster_api_provider_cce.Api.Memory.Cells.{Cell}
use cluster_api_provider_cce.Api.DeepCopy.{Library}
use cluster_api_provider_cce.Api.Memory.Kinds.{domains_kind, clusters_kind}
use cluster_api_provider_cce.Api.DeepCopy.ManagedCluster.{
  copy_domain, copy_cluster_status_into, copy_cluster_into, copy_cluster_list_into,
}

module _ {L V : Layouts} (lib : Library L V) where
  pub copy_domain-fields :
      Fieldwise (both (plain {X = Cell L} String) lib.domain) (λ t. t) (λ t. t) (copy_domain lib)
  unfolding copy_domain
  copy_domain-fields t h = refl

  abbrev pub domain_view : Copied (Cell L) (String × L.Domain) (String × V.Domain)
  domain_view =
      struct (both (plain {X = Cell L} String) lib.domain) (λ t. t) (λ t. t) (λ t. t)
        (copy_domain lib) (λ t. refl) copy_domain-fields

  pub copy_cluster_status-fields :
      Fieldwise
        (both (plain {X = Cell L} Bool) (pointer (list domain_view) (domains_kind {L = L})))
        (λ t. (t.ready, t.failure_domains))
        (λ t. record { ready = t.0; failure_domains = t.1 })
        (copy_cluster_status_into lib)
  unfolding copy_cluster_status_into
  copy_cluster_status-fields t h = refl

  abbrev pub cluster_status_view :
      Copied (Cell L) (ClusterStatus L Address) (ClusterStatus V Option)
  cluster_status_view =
      struct (both (plain {X = Cell L} Bool) (pointer (list domain_view) (domains_kind {L = L})))
        (λ t. (t.ready, t.failure_domains)) (λ t. record { ready = t.0; failure_domains = t.1 })
        (λ t. (t.ready, t.failure_domains)) (copy_cluster_status_into lib) (λ t. refl)
        copy_cluster_status-fields

  pub copy_cluster-fields :
      Fieldwise
        (both
          (plain {X = Cell L} TypeMeta)
          (both (lib.meta) (both (plain {X = Cell L} ClusterSpec) (cluster_status_view))))
        (λ t. (t.type_meta, (t.meta, (t.spec, t.status))))
        (λ t. record { type_meta = t.0; meta = t.1.0; spec = t.1.1.0; status = t.1.1.1 })
        (copy_cluster_into lib)
  unfolding copy_cluster_into
  copy_cluster-fields t h = refl

  abbrev pub cluster_view : Copied (Cell L) (ManagedCluster L Address) (ManagedCluster V Option)
  cluster_view =
      struct
        (both (plain {X = Cell L} TypeMeta)
          (both (lib.meta) (both (plain {X = Cell L} ClusterSpec) (cluster_status_view))))
        (λ t. (t.type_meta, (t.meta, (t.spec, t.status))))
        (λ t. record { type_meta = t.0; meta = t.1.0; spec = t.1.1.0; status = t.1.1.1 })
        (λ t. (t.type_meta, (t.meta, (t.spec, t.status)))) (copy_cluster_into lib) (λ t. refl)
        copy_cluster-fields

  pub copy_cluster_list-fields :
      Fieldwise
        (both
          (plain {X = Cell L} TypeMeta)
          (both (lib.list_meta) (pointer (list cluster_view) (clusters_kind {L = L}))))
        (λ t. (t.type_meta, (t.list_meta, t.items)))
        (λ t. record { type_meta = t.0; list_meta = t.1.0; items = t.1.1 })
        (copy_cluster_list_into lib)
  unfolding copy_cluster_list_into
  copy_cluster_list-fields t h = refl

  abbrev pub cluster_list_view :
      Copied (Cell L) (ManagedClusterList L Address) (ManagedClusterList V Option)
  cluster_list_view =
      struct
        (both (plain {X = Cell L} TypeMeta)
          (both (lib.list_meta) (pointer (list cluster_view) (clusters_kind {L = L}))))
        (λ t. (t.type_meta, (t.list_meta, t.items)))
        (λ t. record { type_meta = t.0; list_meta = t.1.0; items = t.1.1 })
        (λ t. (t.type_meta, (t.list_meta, t.items))) (copy_cluster_list_into lib) (λ t. refl)
        copy_cluster_list-fields
