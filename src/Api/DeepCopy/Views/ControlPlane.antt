-- ===== src/Api/DeepCopy/Views/ControlPlane.antt =====
-- The views of CCEManagedControlPlane and its parts.
use cluster_api_provider_cce.Prelude.{String, Bool, refl, Option}
use cluster_api_provider_cce.Memory.Copies.{Copied, plain}
use cluster_api_provider_cce.Memory.Copies.Lists.{list}
use cluster_api_provider_cce.Memory.Copies.Pointers.{pointer}
use cluster_api_provider_cce.Memory.Copies.Structs.{both, struct, Fieldwise}
use cluster_api_provider_cce.Api.Meta.{ObjectReference, ApiEndpoint}
use cluster_api_provider_cce.Api.Memory.{
  Layouts, Address, TypeMeta, NetworkStatus, ControlPlaneSpec, ControlPlaneStatus,
  ManagedControlPlane, ManagedControlPlaneList,
}
use cluster_api_provider_cce.Api.Memory.Cells.{Cell}
use cluster_api_provider_cce.Api.DeepCopy.{Library}
use cluster_api_provider_cce.Api.Memory.Kinds.{
  text_kind, flag_kind, reference_kind, endpoint_access_kind, conditions_kind, control_planes_kind,
}
use cluster_api_provider_cce.Api.DeepCopy.ControlPlane.{
  copy_control_plane_spec_into, copy_control_plane_status_into, copy_control_plane_into,
  copy_control_plane_list_into,
}
use cluster_api_provider_cce.Api.DeepCopy.Views.{network_spec_view, endpoint_access_view}

module _ {L : Layouts} where
  pub copy_control_plane_spec-fields :
      Fieldwise
        (both (pointer (plain {X = Cell L} ObjectReference) (reference_kind {L = L})) (
          both (pointer (plain {X = Cell L} String) (text_kind {L = L})) (
            both (plain {X = Cell L} String) (
              both (pointer (plain {X = Cell L} String) (text_kind {L = L})) (
                both (pointer (plain {X = Cell L} String) (text_kind {L = L})) (
                  both (network_spec_view) (
                    both
                      (pointer (endpoint_access_view) (endpoint_access_kind {L = L}))
                      (plain {X = Cell L} ApiEndpoint))))))))
        (λ t. (
          t.identity_ref,
          (
            t.project,
            (
              t.region,
              (
                t.version,
                (t.flavor, (t.network_spec, (t.endpoint_access, t.control_plane_endpoint))),
              ),
            ),
          ),
        ))
        (λ t. record {
          identity_ref = t.0;
          project = t.1.0;
          region = t.1.1.0;
          version = t.1.1.1.0;
          flavor = t.1.1.1.1.0;
          network_spec = t.1.1.1.1.1.0;
          endpoint_access = t.1.1.1.1.1.1.0;
          control_plane_endpoint = t.1.1.1.1.1.1.1;
        })
        copy_control_plane_spec_into
  unfolding copy_control_plane_spec_into
  copy_control_plane_spec-fields t h = refl

  abbrev pub control_plane_spec_view :
      Copied (Cell L) (ControlPlaneSpec Address) (ControlPlaneSpec Option)
  control_plane_spec_view =
      struct
        (both (pointer (plain {X = Cell L} ObjectReference) (reference_kind {L = L})) (
          both (pointer (plain {X = Cell L} String) (text_kind {L = L})) (
            both (plain {X = Cell L} String) (
              both (pointer (plain {X = Cell L} String) (text_kind {L = L})) (
                both (pointer (plain {X = Cell L} String) (text_kind {L = L})) (
                  both (network_spec_view) (
                    both (pointer (endpoint_access_view) (endpoint_access_kind {L = L}))
                      (plain {X = Cell L} ApiEndpoint))))))))
        (λ t. (
          t.identity_ref,
          (
            t.project,
            (
              t.region,
              (
                t.version,
                (t.flavor, (t.network_spec, (t.endpoint_access, t.control_plane_endpoint))),
              ),
            ),
          ),
        ))
        (λ t. record {
          identity_ref = t.0;
          project = t.1.0;
          region = t.1.1.0;
          version = t.1.1.1.0;
          flavor = t.1.1.1.1.0;
          network_spec = t.1.1.1.1.1.0;
          endpoint_access = t.1.1.1.1.1.1.0;
          control_plane_endpoint = t.1.1.1.1.1.1.1;
        })
        (λ t. (
          t.identity_ref,
          (
            t.project,
            (
              t.region,
              (
                t.version,
                (t.flavor, (t.network_spec, (t.endpoint_access, t.control_plane_endpoint))),
              ),
            ),
          ),
        ))
        copy_control_plane_spec_into (λ t. refl) copy_control_plane_spec-fields

module _ {L V : Layouts} (lib : Library L V) where
  pub copy_control_plane_status-fields :
      Fieldwise
        (both (plain {X = Cell L} NetworkStatus) (
          both (pointer (plain {X = Cell L} Bool) (flag_kind {L = L})) (
            both (plain {X = Cell L} Bool) (
              both (plain {X = Cell L} Bool) (
                both
                  (pointer (plain {X = Cell L} String) (text_kind {L = L}))
                  (pointer (list lib.condition) (conditions_kind {L = L})))))))
        (λ t. (
          t.network,
          (
            t.external_managed_control_plane,
            (t.initialized, (t.ready, (t.failure_message, t.conditions))),
          ),
        ))
        (λ t. record {
          network = t.0;
          external_managed_control_plane = t.1.0;
          initialized = t.1.1.0;
          ready = t.1.1.1.0;
          failure_message = t.1.1.1.1.0;
          conditions = t.1.1.1.1.1;
        })
        (copy_control_plane_status_into lib)
  unfolding copy_control_plane_status_into
  copy_control_plane_status-fields t h = refl

  abbrev pub control_plane_status_view :
      Copied (Cell L) (ControlPlaneStatus L Address) (ControlPlaneStatus V Option)
  control_plane_status_view =
      struct
        (both (plain {X = Cell L} NetworkStatus) (
          both (pointer (plain {X = Cell L} Bool) (flag_kind {L = L})) (
            both (plain {X = Cell L} Bool) (
              both (plain {X = Cell L} Bool) (
                both (pointer (plain {X = Cell L} String) (text_kind {L = L}))
                  (pointer (list lib.condition) (conditions_kind {L = L})))))))
        (λ t. (
          t.network,
          (
            t.external_managed_control_plane,
            (t.initialized, (t.ready, (t.failure_message, t.conditions))),
          ),
        ))
        (λ t. record {
          network = t.0;
          external_managed_control_plane = t.1.0;
          initialized = t.1.1.0;
          ready = t.1.1.1.0;
          failure_message = t.1.1.1.1.0;
          conditions = t.1.1.1.1.1;
        })
        (λ t. (
          t.network,
          (
            t.external_managed_control_plane,
            (t.initialized, (t.ready, (t.failure_message, t.conditions))),
          ),
        ))
        (copy_control_plane_status_into lib) (λ t. refl) copy_control_plane_status-fields

  pub copy_control_plane-fields :
      Fieldwise
        (both
          (plain {X = Cell L} TypeMeta)
          (both (lib.meta) (both (control_plane_spec_view) (control_plane_status_view))))
        (λ t. (t.type_meta, (t.meta, (t.spec, t.status))))
        (λ t. record { type_meta = t.0; meta = t.1.0; spec = t.1.1.0; status = t.1.1.1 })
        (copy_control_plane_into lib)
  unfolding copy_control_plane_into
  copy_control_plane-fields t h = refl

  abbrev pub control_plane_view :
      Copied (Cell L) (ManagedControlPlane L Address) (ManagedControlPlane V Option)
  control_plane_view =
      struct
        (both (plain {X = Cell L} TypeMeta)
          (both (lib.meta) (both (control_plane_spec_view) (control_plane_status_view))))
        (λ t. (t.type_meta, (t.meta, (t.spec, t.status))))
        (λ t. record { type_meta = t.0; meta = t.1.0; spec = t.1.1.0; status = t.1.1.1 })
        (λ t. (t.type_meta, (t.meta, (t.spec, t.status)))) (copy_control_plane_into lib) (λ t. refl)
        copy_control_plane-fields

  pub copy_control_plane_list-fields :
      Fieldwise
        (both
          (plain {X = Cell L} TypeMeta)
          (both (lib.list_meta) (pointer (list control_plane_view) (control_planes_kind {L = L}))))
        (λ t. (t.type_meta, (t.list_meta, t.items)))
        (λ t. record { type_meta = t.0; list_meta = t.1.0; items = t.1.1 })
        (copy_control_plane_list_into lib)
  unfolding copy_control_plane_list_into
  copy_control_plane_list-fields t h = refl

  abbrev pub control_plane_list_view :
      Copied (Cell L) (ManagedControlPlaneList L Address) (ManagedControlPlaneList V Option)
  control_plane_list_view =
      struct
        (both (plain {X = Cell L} TypeMeta)
          (both (lib.list_meta) (pointer (list control_plane_view) (control_planes_kind {L = L}))))
        (λ t. (t.type_meta, (t.list_meta, t.items)))
        (λ t. record { type_meta = t.0; list_meta = t.1.0; items = t.1.1 })
        (λ t. (t.type_meta, (t.list_meta, t.items))) (copy_control_plane_list_into lib) (λ t. refl)
        copy_control_plane_list-fields
