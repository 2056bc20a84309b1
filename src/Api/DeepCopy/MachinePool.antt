-- ===== src/Api/DeepCopy/MachinePool.antt =====
-- Deep copies of CCEManagedMachinePool and its parts, in zz_generated.deepcopy.go.
use cluster_api_provider_cce.Memory.{Pointer, Mem, pure, ◌>>=◌}
use cluster_api_provider_cce.Memory.Copies.{new_copy, copy_all}
use cluster_api_provider_cce.Api.Memory.{
  Layouts, Address, MachinePoolSpec, MachinePoolStatus, ManagedMachinePool, ManagedMachinePoolList,
}
use cluster_api_provider_cce.Api.Memory.Cells.{Cell}
use cluster_api_provider_cce.Api.DeepCopy.{Library}
use cluster_api_provider_cce.Api.Memory.Kinds.{
  text_kind, number_kind, volume_kind, volumes_kind, pairs_kind, taints_kind, slice_kind,
  subnet_kind, strings_kind, conditions_kind, machine_pool_spec_kind, machine_pool_status_kind,
  machine_pool_kind, machine_pools_kind, machine_pool_list_kind,
}
use cluster_api_provider_cce.Api.DeepCopy.Structs.{copy_taint_into}

module _ {L : Layouts} where
  unfoldable pub copy_machine_pool_spec_into :
      MachinePoolSpec Address → Mem (Cell L) (MachinePoolSpec Address)
  copy_machine_pool_spec_into spec = do
    replicas ← new_copy number_kind pure spec.replicas
    flavor ← new_copy text_kind pure spec.flavor
    runtime ← new_copy text_kind pure spec.runtime
    ssh_key_name ← new_copy text_kind pure spec.ssh_key_name
    root_volume ← new_copy volume_kind pure spec.root_volume
    data_volumes ← new_copy volumes_kind pure spec.data_volumes
    labels ← new_copy pairs_kind pure spec.labels
    taints ← new_copy slice_kind (new_copy taints_kind (copy_all copy_taint_into)) spec.taints
    subnet ← new_copy subnet_kind pure spec.subnet
    provider_id_list ← new_copy strings_kind pure spec.provider_id_list
    pure (record {
      replicas = replicas;
      flavor = flavor;
      runtime = runtime;
      ssh_key_name = ssh_key_name;
      root_volume = root_volume;
      data_volumes = data_volumes;
      labels = labels;
      taints = taints;
      subnet = subnet;
      provider_id_list = provider_id_list;
    })

  unfoldable pub copy_machine_pool_spec : Pointer → Mem (Cell L) Pointer
  copy_machine_pool_spec = new_copy machine_pool_spec_kind copy_machine_pool_spec_into

module _ {L V : Layouts} (lib : Library L V) where
  unfoldable pub copy_machine_pool_status_into :
      MachinePoolStatus L Address → Mem (Cell L) (MachinePoolStatus L Address)
  copy_machine_pool_status_into status = do
    failure_reason ← new_copy text_kind pure status.failure_reason
    failure_message ← new_copy text_kind pure status.failure_message
    conditions ← new_copy conditions_kind (copy_all lib.condition.copy) status.conditions
    pure (record status {
      failure_reason = failure_reason;
      failure_message = failure_message;
      conditions = conditions;
    })

  unfoldable pub copy_machine_pool_status : Pointer → Mem (Cell L) Pointer
  copy_machine_pool_status = new_copy machine_pool_status_kind copy_machine_pool_status_into

  unfoldable pub copy_machine_pool_into :
      ManagedMachinePool L Address → Mem (Cell L) (ManagedMachinePool L Address)
  copy_machine_pool_into x = do
    meta ← lib.meta.copy x.meta
    spec ← copy_machine_pool_spec_into x.spec
    status ← copy_machine_pool_status_into x.status
    pure (record x { meta = meta; spec = spec; status = status })

  unfoldable pub copy_machine_pool : Pointer → Mem (Cell L) Pointer
  copy_machine_pool = new_copy machine_pool_kind copy_machine_pool_into

  unfoldable pub copy_machine_pool_list_into :
      ManagedMachinePoolList L Address → Mem (Cell L) (ManagedMachinePoolList L Address)
  copy_machine_pool_list_into x = do
    list_meta ← lib.list_meta.copy x.list_meta
    items ← new_copy machine_pools_kind (copy_all copy_machine_pool_into) x.items
    pure (record x { list_meta = list_meta; items = items })

  unfoldable pub copy_machine_pool_list : Pointer → Mem (Cell L) Pointer
  copy_machine_pool_list = new_copy machine_pool_list_kind copy_machine_pool_list_into
