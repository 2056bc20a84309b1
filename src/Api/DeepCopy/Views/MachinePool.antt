-- ===== src/Api/DeepCopy/Views/MachinePool.antt =====
-- The views of CCEManagedMachinePool and its parts.
use cluster_api_provider_cce.Prelude.{ℕ, String, Bool, refl, Option, List}
use cluster_api_provider_cce.Memory.Copies.{Copied, plain}
use cluster_api_provider_cce.Memory.Copies.Lists.{list}
use cluster_api_provider_cce.Memory.Copies.Pointers.{pointer}
use cluster_api_provider_cce.Memory.Copies.Structs.{both, struct, Fieldwise}
use cluster_api_provider_cce.Api.Memory.{
  Layouts, Address, TypeMeta, Volume, Subnet, MachinePoolSpec, MachinePoolStatus,
  ManagedMachinePool, ManagedMachinePoolList,
}
use cluster_api_provider_cce.Api.Memory.Cells.{Cell}
use cluster_api_provider_cce.Api.DeepCopy.{Library}
use cluster_api_provider_cce.Api.Memory.Kinds.{
  text_kind, number_kind, volume_kind, volumes_kind, pairs_kind, taints_kind, slice_kind,
  subnet_kind, strings_kind, conditions_kind, machine_pools_kind,
}
use cluster_api_provider_cce.Api.DeepCopy.MachinePool.{
  copy_machine_pool_spec_into, copy_machine_pool_status_into, copy_machine_pool_into,
  copy_machine_pool_list_into,
}
use cluster_api_provider_cce.Api.DeepCopy.Views.{taint_view}

module _ {L : Layouts} where
  pub copy_machine_pool_spec-fields :
      Fieldwise
        (both (pointer (plain {X = Cell L} ℕ) (number_kind {L = L})) (
          both (pointer (plain {X = Cell L} String) (text_kind {L = L})) (
            both (pointer (plain {X = Cell L} String) (text_kind {L = L})) (
              both (pointer (plain {X = Cell L} String) (text_kind {L = L})) (
                both (pointer (plain {X = Cell L} Volume) (volume_kind {L = L})) (
                  both (pointer (plain {X = Cell L} (List Volume)) (volumes_kind {L = L})) (
                    both
                      (pointer (plain {X = Cell L} (List (String × String))) (pairs_kind {L = L}))
                      (both
                        (pointer
                          (pointer (list taint_view) (taints_kind {L = L}))
                          (slice_kind {L = L}))
                        (both (pointer (plain {X = Cell L} Subnet) (subnet_kind {L = L})) (
                          pointer
                            (plain {X = Cell L} (List String))
                            (strings_kind {L = L})))))))))))
        (λ t. (
          t.replicas,
          (
            t.flavor,
            (
              t.runtime,
              (
                t.ssh_key_name,
                (
                  t.root_volume,
                  (t.data_volumes, (t.labels, (t.taints, (t.subnet, t.provider_id_list)))),
                ),
              ),
            ),
          ),
        ))
        (λ t. record {
          replicas = t.0;
          flavor = t.1.0;
          runtime = t.1.1.0;
          ssh_key_name = t.1.1.1.0;
          root_volume = t.1.1.1.1.0;
          data_volumes = t.1.1.1.1.1.0;
          labels = t.1.1.1.1.1.1.0;
          taints = t.1.1.1.1.1.1.1.0;
          subnet = t.1.1.1.1.1.1.1.1.0;
          provider_id_list = t.1.1.1.1.1.1.1.1.1;
        })
        copy_machine_pool_spec_into
  unfolding copy_machine_pool_spec_into
  copy_machine_pool_spec-fields t h = refl

  abbrev pub machine_pool_spec_view :
      Copied (Cell L) (MachinePoolSpec Address) (MachinePoolSpec Option)
  machine_pool_spec_view =
      struct
        (both (pointer (plain {X = Cell L} ℕ) (number_kind {L = L})) (
          both (pointer (plain {X = Cell L} String) (text_kind {L = L})) (
            both (pointer (plain {X = Cell L} String) (text_kind {L = L})) (
              both (pointer (plain {X = Cell L} String) (text_kind {L = L})) (
                both (pointer (plain {X = Cell L} Volume) (volume_kind {L = L})) (
                  both (pointer (plain {X = Cell L} (List Volume)) (volumes_kind {L = L})) (
                    both
                      (pointer (plain {X = Cell L} (List (String × String))) (pairs_kind {L = L}))
                      (both
                        (pointer (pointer (list taint_view) (taints_kind {L = L}))
                          (slice_kind {L = L}))
                        (both (pointer (plain {X = Cell L} Subnet) (subnet_kind {L = L})) (
                          pointer (plain {X = Cell L} (List String))
                            (strings_kind {L = L})))))))))))
        (λ t. (
          t.replicas,
          (
            t.flavor,
            (
              t.runtime,
              (
                t.ssh_key_name,
                (
                  t.root_volume,
                  (t.data_volumes, (t.labels, (t.taints, (t.subnet, t.provider_id_list)))),
                ),
              ),
            ),
          ),
        ))
        (λ t. record {
          replicas = t.0;
          flavor = t.1.0;
          runtime = t.1.1.0;
          ssh_key_name = t.1.1.1.0;
          root_volume = t.1.1.1.1.0;
          data_volumes = t.1.1.1.1.1.0;
          labels = t.1.1.1.1.1.1.0;
          taints = t.1.1.1.1.1.1.1.0;
          subnet = t.1.1.1.1.1.1.1.1.0;
          provider_id_list = t.1.1.1.1.1.1.1.1.1;
        })
        (λ t. (
          t.replicas,
          (
            t.flavor,
            (
              t.runtime,
              (
                t.ssh_key_name,
                (
                  t.root_volume,
                  (t.data_volumes, (t.labels, (t.taints, (t.subnet, t.provider_id_list)))),
                ),
              ),
            ),
          ),
        ))
        copy_machine_pool_spec_into (λ t. refl) copy_machine_pool_spec-fields

module _ {L V : Layouts} (lib : Library L V) where
  pub copy_machine_pool_status-fields :
      Fieldwise
        (both (plain {X = Cell L} Bool) (
          both (plain {X = Cell L} ℕ) (
            both (pointer (plain {X = Cell L} String) (text_kind {L = L})) (
              both
                (pointer (plain {X = Cell L} String) (text_kind {L = L}))
                (pointer (list lib.condition) (conditions_kind {L = L}))))))
        (λ t. (t.ready, (t.replicas, (t.failure_reason, (t.failure_message, t.conditions)))))
        (λ t. record {
          ready = t.0;
          replicas = t.1.0;
          failure_reason = t.1.1.0;
          failure_message = t.1.1.1.0;
          conditions = t.1.1.1.1;
        })
        (copy_machine_pool_status_into lib)
  unfolding copy_machine_pool_status_into
  copy_machine_pool_status-fields t h = refl

  abbrev pub machine_pool_status_view :
      Copied (Cell L) (MachinePoolStatus L Address) (MachinePoolStatus V Option)
  machine_pool_status_view =
      struct
        (both (plain {X = Cell L} Bool) (
          both (plain {X = Cell L} ℕ) (
            both (pointer (plain {X = Cell L} String) (text_kind {L = L})) (
              both (pointer (plain {X = Cell L} String) (text_kind {L = L}))
                (pointer (list lib.condition) (conditions_kind {L = L}))))))
        (λ t. (t.ready, (t.replicas, (t.failure_reason, (t.failure_message, t.conditions)))))
        (λ t. record {
          ready = t.0;
          replicas = t.1.0;
          failure_reason = t.1.1.0;
          failure_message = t.1.1.1.0;
          conditions = t.1.1.1.1;
        })
        (λ t. (t.ready, (t.replicas, (t.failure_reason, (t.failure_message, t.conditions)))))
        (copy_machine_pool_status_into lib) (λ t. refl) copy_machine_pool_status-fields

  pub copy_machine_pool-fields :
      Fieldwise
        (both
          (plain {X = Cell L} TypeMeta)
          (both (lib.meta) (both (machine_pool_spec_view) (machine_pool_status_view))))
        (λ t. (t.type_meta, (t.meta, (t.spec, t.status))))
        (λ t. record { type_meta = t.0; meta = t.1.0; spec = t.1.1.0; status = t.1.1.1 })
        (copy_machine_pool_into lib)
  unfolding copy_machine_pool_into
  copy_machine_pool-fields t h = refl

  abbrev pub machine_pool_view :
      Copied (Cell L) (ManagedMachinePool L Address) (ManagedMachinePool V Option)
  machine_pool_view =
      struct
        (both (plain {X = Cell L} TypeMeta)
          (both (lib.meta) (both (machine_pool_spec_view) (machine_pool_status_view))))
        (λ t. (t.type_meta, (t.meta, (t.spec, t.status))))
        (λ t. record { type_meta = t.0; meta = t.1.0; spec = t.1.1.0; status = t.1.1.1 })
        (λ t. (t.type_meta, (t.meta, (t.spec, t.status)))) (copy_machine_pool_into lib) (λ t. refl)
        copy_machine_pool-fields

  pub copy_machine_pool_list-fields :
      Fieldwise
        (both
          (plain {X = Cell L} TypeMeta)
          (both (lib.list_meta) (pointer (list machine_pool_view) (machine_pools_kind {L = L}))))
        (λ t. (t.type_meta, (t.list_meta, t.items)))
        (λ t. record { type_meta = t.0; list_meta = t.1.0; items = t.1.1 })
        (copy_machine_pool_list_into lib)
  unfolding copy_machine_pool_list_into
  copy_machine_pool_list-fields t h = refl

  abbrev pub machine_pool_list_view :
      Copied (Cell L) (ManagedMachinePoolList L Address) (ManagedMachinePoolList V Option)
  machine_pool_list_view =
      struct
        (both (plain {X = Cell L} TypeMeta)
          (both (lib.list_meta) (pointer (list machine_pool_view) (machine_pools_kind {L = L}))))
        (λ t. (t.type_meta, (t.list_meta, t.items)))
        (λ t. record { type_meta = t.0; list_meta = t.1.0; items = t.1.1 })
        (λ t. (t.type_meta, (t.list_meta, t.items))) (copy_machine_pool_list_into lib) (λ t. refl)
        copy_machine_pool_list-fields
