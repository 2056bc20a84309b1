-- ===== src/Api/DeepCopy/Structs.antt =====
-- Deep copies of the structs without pointers of a library's, in zz_generated.deepcopy.go. Where a
-- function of Go only assigns `*out = *in`, and assigns a struct without pointers again, the action is
-- `pure`. A function DeepCopyInto is an action on the struct, which gives the one to be written to out;
-- DeepCopy is an action on the pointer to it.
use cluster_api_provider_cce.Memory.{Pointer, Mem, pure, ◌>>=◌}
use cluster_api_provider_cce.Memory.Copies.{new_copy}
use cluster_api_provider_cce.Api.Memory.{
  Layouts, Address, Vpc, Subnet, Eip, Volume, NetworkStatus, NetworkSpec, EndpointAccess, Taint,
}
use cluster_api_provider_cce.Api.Memory.Cells.{Cell}
use cluster_api_provider_cce.Api.Memory.Kinds.{
  text_kind, flag_kind, vpc_kind, subnet_kind, eip_kind, volume_kind, network_status_kind,
  network_spec_kind, endpoint_access_kind, taint_kind,
}

module _ {L : Layouts} where
  unfoldable pub copy_eip_into : Eip → Mem (Cell L) (Eip)
  copy_eip_into x = pure x

  unfoldable pub copy_eip : Pointer → Mem (Cell L) Pointer
  copy_eip = new_copy eip_kind copy_eip_into

  unfoldable pub copy_endpoint_access_into :
      EndpointAccess Address → Mem (Cell L) (EndpointAccess Address)
  copy_endpoint_access_into access = do
    is_public ← new_copy flag_kind pure access.is_public
    pure (record access { is_public = is_public })

  unfoldable pub copy_endpoint_access : Pointer → Mem (Cell L) Pointer
  copy_endpoint_access = new_copy endpoint_access_kind copy_endpoint_access_into

  unfoldable pub copy_network_spec_into : NetworkSpec Address → Mem (Cell L) (NetworkSpec Address)
  copy_network_spec_into spec = do
    mode ← new_copy text_kind pure spec.mode
    pure (record spec { mode = mode })

  unfoldable pub copy_network_spec : Pointer → Mem (Cell L) Pointer
  copy_network_spec = new_copy network_spec_kind copy_network_spec_into

  unfoldable pub copy_network_status_into : NetworkStatus → Mem (Cell L) (NetworkStatus)
  copy_network_status_into x = pure x

  unfoldable pub copy_network_status : Pointer → Mem (Cell L) Pointer
  copy_network_status = new_copy network_status_kind copy_network_status_into

  unfoldable pub copy_subnet_into : Subnet → Mem (Cell L) (Subnet)
  copy_subnet_into x = pure x

  unfoldable pub copy_subnet : Pointer → Mem (Cell L) Pointer
  copy_subnet = new_copy subnet_kind copy_subnet_into

  unfoldable pub copy_taint_into : Taint Address → Mem (Cell L) (Taint Address)
  copy_taint_into taint = do
    value ← new_copy text_kind pure taint.value
    pure (record taint { value = value })

  unfoldable pub copy_taint : Pointer → Mem (Cell L) Pointer
  copy_taint = new_copy taint_kind copy_taint_into

  unfoldable pub copy_vpc_into : Vpc → Mem (Cell L) (Vpc)
  copy_vpc_into x = pure x

  unfoldable pub copy_vpc : Pointer → Mem (Cell L) Pointer
  copy_vpc = new_copy vpc_kind copy_vpc_into

  unfoldable pub copy_volume_into : Volume → Mem (Cell L) (Volume)
  copy_volume_into x = pure x

  unfoldable pub copy_volume : Pointer → Mem (Cell L) Pointer
  copy_volume = new_copy volume_kind copy_volume_into
