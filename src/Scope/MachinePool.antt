-- ===== src/Scope/MachinePool.antt =====
-- pkg/cloud/scope/managednodepool.go
use cluster_api_provider_cce.Prelude.{
  String, Option, none, some, Bool, true, false, ◌==◌, if◌then◌else◌,
}
use cluster_api_provider_cce.Errors.{new}
use cluster_api_provider_cce.Go.{pure, raise, get_obj, modify, call, wrap, ◌>>=◌, ◌>>◌}
use cluster_api_provider_cce.Env.{Env, Severity}
use cluster_api_provider_cce.Call.{Call, PoolM}
use cluster_api_provider_cce.Api.Meta.{MachinePool}
use cluster_api_provider_cce.Api.ControlPlane.{ControlPlane}
use cluster_api_provider_cce.Api.MachinePool.{
  ManagedMachinePool, infra_machine_pool_id, infra_machine_pool_id_label, nodepool_ready,
}
use cluster_api_provider_cce.Scope.ControlPlane.{set_label}

module _ {C : Type 0} where
  unfoldable pub with_infra_machine_pool_id : String → ManagedMachinePool C → ManagedMachinePool C
  with_infra_machine_pool_id id pool = record pool {
    meta = record pool.meta { labels = set_label infra_machine_pool_id_label id pool.meta.labels };
  }

module _ {W C : Type 0} where
  unfoldable pub scope_infra_machine_pool_id : PoolM W C String
  scope_infra_machine_pool_id = do pool ← get_obj; pure (infra_machine_pool_id pool)

  unfoldable pub set_infra_machine_pool_id : String → PoolM W C (Unit {0})
  set_infra_machine_pool_id id = modify (with_infra_machine_pool_id id)

  unfoldable pub set_conditions : (C → C) → PoolM W C (Unit {0})
  set_conditions f = modify (λ pool. record pool {
    status = record pool.status { conditions = f pool.status.conditions };
  })

module _ {W C : Type 0} (env : Env W C) where
  -- The scope needs its three objects; `none` and `false` stand for nil pointers.
  unfoldable pub new_machine_pool_scope :
      Option (ControlPlane C) → Option MachinePool → Bool → PoolM W C (Unit {0})
  new_machine_pool_scope none machine_pool has_pool =
      raise (new "failed to generate new scope from nil CCEManagedMachinePool")
  new_machine_pool_scope (some control_plane) none has_pool =
      raise (new "failed to generate new scope from nil MachinePool")
  new_machine_pool_scope (some control_plane) (some machine_pool) false =
      raise (new "failed to generate new scope from nil ManagedMachinePool")
  new_machine_pool_scope (some control_plane) (some machine_pool) true = do
    pool ← get_obj
    wrap "failed to init CCEManagedMachinePool patch helper"
        (call (Call.read "patch helper") (env.kube.new_machine_pool_helper pool))
    wrap "failed to init MachinePool patch helper"
        (call (Call.read "patch helper") (env.kube.new_capi_machine_pool_helper machine_pool))

  unfoldable pub patch_object : PoolM W C (Unit {0})
  patch_object = do
    pool ← get_obj
    call (Call.patch_machine_pool pool) (env.kube.patch_machine_pool pool)

  unfoldable pub close : PoolM W C (Unit {0})
  close = patch_object

  unfoldable pub mark_true : String → PoolM W C (Unit {0})
  mark_true t = set_conditions (env.conditions.mark_true t)

  unfoldable pub mark_false : String → String → Severity → String → PoolM W C (Unit {0})
  mark_false t reason severity message =
      set_conditions (env.conditions.mark_false t reason severity message)

  -- NodepoolReadyFalse
  unfoldable pub nodepool_ready_false : String → String → PoolM W C (Unit {0})
  nodepool_ready_false reason message = do
    let severity = if message == "" then Severity.info else Severity.warning
    mark_false nodepool_ready reason severity message
    wrap "failed to mark nodepool not ready" patch_object
