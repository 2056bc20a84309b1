-- ===== src/Api/DeepCopy/ControlPlane.antt =====
-- Deep copies of CCEManagedControlPlane and its parts, in zz_generated.deepcopy.go.
use cluster_api_provider_cce.Memory.{Pointer, Mem, pure, ◌>>=◌}
use cluster_api_provider_cce.Memory.Copies.{new_copy, copy_all}
use cluster_api_provider_cce.Api.Memory.{
  Layouts, Address, ControlPlaneSpec, ControlPlaneStatus, ManagedControlPlane,
  ManagedControlPlaneList,
}
use cluster_api_provider_cce.Api.Memory.Cells.{Cell}
use cluster_api_provider_cce.Api.DeepCopy.{Library}
use cluster_api_provider_cce.Api.Memory.Kinds.{
  text_kind, flag_kind, reference_kind, endpoint_access_kind, conditions_kind,
  control_plane_spec_kind, control_plane_status_kind, control_plane_kind, control_planes_kind,
  control_plane_list_kind,
}
use cluster_api_provider_cce.Api.DeepCopy.Structs.{
  copy_network_spec_into, copy_endpoint_access_into,
}

module _ {L : Layouts} where
  unfoldable pub copy_control_plane_spec_into :
      ControlPlaneSpec Address → Mem (Cell L) (ControlPlaneSpec Address)
  copy_control_plane_spec_into spec = do
    identity_ref ← new_copy reference_kind pure spec.identity_ref
    project ← new_copy text_kind pure spec.project
    version ← new_copy text_kind pure spec.version
    flavor ← new_copy text_kind pure spec.flavor
    network_spec ← copy_network_spec_into spec.network_spec
    endpoint_access ← new_copy endpoint_access_kind copy_endpoint_access_into spec.endpoint_access
    pure (record spec {
      identity_ref = identity_ref;
      project = project;
      version = version;
      flavor = flavor;
      network_spec = network_spec;
      endpoint_access = endpoint_access;
    })

  unfoldable pub copy_control_plane_spec : Pointer → Mem (Cell L) Pointer
  copy_control_plane_spec = new_copy control_plane_spec_kind copy_control_plane_spec_into

module _ {L V : Layouts} (lib : Library L V) where
  unfoldable pub copy_control_plane_status_into :
      ControlPlaneStatus L Address → Mem (Cell L) (ControlPlaneStatus L Address)
  copy_control_plane_status_into status = do
    external ← new_copy flag_kind pure status.external_managed_control_plane
    failure_message ← new_copy text_kind pure status.failure_message
    conditions ← new_copy conditions_kind (copy_all lib.condition.copy) status.conditions
    pure (record status {
      external_managed_control_plane = external;
      failure_message = failure_message;
      conditions = conditions;
    })

  unfoldable pub copy_control_plane_status : Pointer → Mem (Cell L) Pointer
  copy_control_plane_status = new_copy control_plane_status_kind copy_control_plane_status_into

  unfoldable pub copy_control_plane_into :
      ManagedControlPlane L Address → Mem (Cell L) (ManagedControlPlane L Address)
  copy_control_plane_into x = do
    meta ← lib.meta.copy x.meta
    spec ← copy_control_plane_spec_into x.spec
    status ← copy_control_plane_status_into x.status
    pure (record x { meta = meta; spec = spec; status = status })

  unfoldable pub copy_control_plane : Pointer → Mem (Cell L) Pointer
  copy_control_plane = new_copy control_plane_kind copy_control_plane_into

  unfoldable pub copy_control_plane_list_into :
      ManagedControlPlaneList L Address → Mem (Cell L) (ManagedControlPlaneList L Address)
  copy_control_plane_list_into x = do
    list_meta ← lib.list_meta.copy x.list_meta
    items ← new_copy control_planes_kind (copy_all copy_control_plane_into) x.items
    pure (record x { list_meta = list_meta; items = items })

  unfoldable pub copy_control_plane_list : Pointer → Mem (Cell L) Pointer
  copy_control_plane_list = new_copy control_plane_list_kind copy_control_plane_list_into
