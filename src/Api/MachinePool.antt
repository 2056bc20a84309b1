-- ===== src/Api/MachinePool.antt =====
-- api/v1beta1/ccemanagedmachinepool_types.go
use cluster_api_provider_cce.Prelude.{ℕ, String, Bool, Option, List}
use cluster_api_provider_cce.Api.Meta.{ObjectMeta}
use cluster_api_provider_cce.Api.ControlPlane.{label_or_empty}

abbrev pub managed_machine_pool_finalizer : String
managed_machine_pool_finalizer = "ccemanagedmachinepools.infrastructure.cluster.x-k8s.io"

abbrev pub infra_machine_pool_id_label : String
infra_machine_pool_id_label = "cluster.x-k8s.io/infra-machinepool-id"

abbrev pub nodepool_ready : String
nodepool_ready = "CCENodepoolReady"

abbrev pub nodepool_reconciliation_failed : String
nodepool_reconciliation_failed = "CCENodepoolReconciliationFailed"

abbrev pub waiting_for_control_plane : String
waiting_for_control_plane = "WaitingForCCEControlPlane"

pub record Taint : Type 0 where
  pub key : String
  pub value : Option String
  pub effect : String

-- `size` is an int32, in gigabytes.
pub record Volume : Type 0 where
  pub size : ℕ
  pub volumetype : String

pub record MachinePoolSpec : Type 0 where
  pub replicas : Option ℕ
  pub flavor : Option String
  pub runtime : Option String
  pub ssh_key_name : Option String
  pub root_volume : Option Volume
  pub data_volumes : List Volume
  pub labels : List (String × String)
  pub taints : Option (List Taint)
  pub subnet : Option String
  pub provider_id_list : List String

pub record MachinePoolStatus (C : Type 0) : Type 0 where
  pub ready : Bool
  pub replicas : ℕ
  pub failure_reason : Option String
  pub failure_message : Option String
  pub conditions : C

-- CCEManagedMachinePool
pub record ManagedMachinePool (C : Type 0) : Type 0 where
  pub meta : ObjectMeta
  pub spec : MachinePoolSpec
  pub status : MachinePoolStatus C

-- CCEManagedMachinePool.InfraMachinePoolID, and the scope's method of the same body.
unfoldable pub infra_machine_pool_id : {C : Type 0} → ManagedMachinePool C → String
unfolding label_or_empty
infra_machine_pool_id pool = label_or_empty infra_machine_pool_id_label pool.meta.labels
