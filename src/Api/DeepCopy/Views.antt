-- ===== src/Api/DeepCopy/Views.antt =====
-- What the structs of the API stand for, and that their deep copies copy it.
pub mod ManagedCluster
pub mod ControlPlane
pub mod MachinePool
use cluster_api_provider_cce.Prelude.{ℕ, String, Bool, refl, Option, List}
use cluster_api_provider_cce.Memory.{pure, ◌>>=◌}
use cluster_api_provider_cce.Memory.Copies.{Copied, plain, copy_all}
use cluster_api_provider_cce.Memory.Copies.Lists.{list}
use cluster_api_provider_cce.Memory.Copies.Pointers.{pointer}
use cluster_api_provider_cce.Memory.Copies.Structs.{both, struct, Fieldwise}
use cluster_api_provider_cce.Api.Meta.{ObjectReference, ApiEndpoint}
use cluster_api_provider_cce.Api.Memory.{
  Layouts, Address, Vpc, Subnet, NetworkSpec, EndpointAccess, Taint,
}
use cluster_api_provider_cce.Api.Memory.Cells.{Cell}
use cluster_api_provider_cce.Api.Memory.Kinds.{text_kind, flag_kind}
use cluster_api_provider_cce.Api.DeepCopy.Structs.{
  copy_endpoint_access_into, copy_network_spec_into, copy_taint_into,
}

module _ {L : Layouts} where
  pub copy_taint-fields :
      Fieldwise
        (both (plain {X = Cell L} String) (
          both
            (pointer (plain {X = Cell L} String) (text_kind {L = L}))
            (plain {X = Cell L} String)))
        (λ t. (t.key, (t.value, t.effect)))
        (λ t. record { key = t.0; value = t.1.0; effect = t.1.1 })
        copy_taint_into
  unfolding copy_taint_into
  copy_taint-fields t h = refl

  abbrev pub taint_view : Copied (Cell L) (Taint Address) (Taint Option)
  taint_view =
      struct
        (both (plain {X = Cell L} String) (
          both (pointer (plain {X = Cell L} String) (text_kind {L = L}))
            (plain {X = Cell L} String)))
        (λ t. (t.key, (t.value, t.effect)))
        (λ t. record { key = t.0; value = t.1.0; effect = t.1.1 })
        (λ t. (t.key, (t.value, t.effect))) copy_taint_into (λ t. refl) copy_taint-fields

  pub copy_endpoint_access-fields :
      Fieldwise
        (pointer (plain {X = Cell L} Bool) (flag_kind {L = L}))
        (λ t. t.is_public)
        (λ t. record { is_public = t })
        copy_endpoint_access_into
  unfolding copy_endpoint_access_into
  copy_endpoint_access-fields t h = refl

  abbrev pub endpoint_access_view : Copied (Cell L) (EndpointAccess Address) (EndpointAccess Option)
  endpoint_access_view =
      struct (pointer (plain {X = Cell L} Bool) (flag_kind {L = L})) (λ t. t.is_public)
        (λ t. record { is_public = t }) (λ t. t.is_public) copy_endpoint_access_into (λ t. refl)
        copy_endpoint_access-fields

  pub copy_network_spec-fields :
      Fieldwise
        (both
          (pointer (plain {X = Cell L} String) (text_kind {L = L}))
          (both (plain {X = Cell L} Vpc) (plain {X = Cell L} Subnet)))
        (λ t. (t.mode, (t.vpc, t.subnet)))
        (λ t. record { mode = t.0; vpc = t.1.0; subnet = t.1.1 })
        copy_network_spec_into
  unfolding copy_network_spec_into
  copy_network_spec-fields t h = refl

  abbrev pub network_spec_view : Copied (Cell L) (NetworkSpec Address) (NetworkSpec Option)
  network_spec_view =
      struct
        (both (pointer (plain {X = Cell L} String) (text_kind {L = L}))
          (both (plain {X = Cell L} Vpc) (plain {X = Cell L} Subnet)))
        (λ t. (t.mode, (t.vpc, t.subnet))) (λ t. record { mode = t.0; vpc = t.1.0; subnet = t.1.1 })
        (λ t. (t.mode, (t.vpc, t.subnet))) copy_network_spec_into (λ t. refl)
        copy_network_spec-fields
