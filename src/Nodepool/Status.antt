-- ===== src/Nodepool/Status.antt =====
-- setStatus of pkg/cloud/services/cce/nodepool.go: the phase of the node pool and its nodes.
pub mod Laws
pub mod Nodes
use cluster_api_provider_cce.Prelude.{
  ℕ, ◌^◌, String, ◌<>◌, Bool, true, false, ◌&&◌, ◌||◌, Option, none, some, List, [], ◌∷◌, ◌==◌, ltb,
  lookup,
}
use cluster_api_provider_cce.Go.{
  if◌then◌else◌, pure, get_obj, modify, deref, call, wrap, when, ◌>>=◌, ◌>>◌,
}
use cluster_api_provider_cce.Env.{Env}
use cluster_api_provider_cce.Call.{Call, PoolM}
use cluster_api_provider_cce.Sdk.{CceClient, Enums, Node, NodeMetadata, NodePool}
use cluster_api_provider_cce.Api.ControlPlane.{ControlPlane, infra_cluster_id}
use cluster_api_provider_cce.Api.MachinePool.{ManagedMachinePool, infra_machine_pool_id}
use cluster_api_provider_cce.Scope.MachinePool.{patch_object}

abbrev pub node_pool_id_annotation : String
node_pool_id_annotation = "kubernetes.io/node-pool.id"

module _ {C : Type 0} where
  unfoldable pub with_ready : Bool → ManagedMachinePool C → ManagedMachinePool C
  with_ready ready pool = record pool { status = record pool.status { ready = ready } }

  unfoldable pub with_failure : Option String → ManagedMachinePool C → ManagedMachinePool C
  with_failure failure pool = record pool {
    status = record pool.status { failure_message = failure };
  }

  unfoldable pub with_nodes : List String → ℕ → ManagedMachinePool C → ManagedMachinePool C
  with_nodes ids replicas pool = record pool {
    spec = record pool.spec { provider_id_list = ids };
    status = record pool.status { replicas = replicas };
  }

-- `cce:////<az>/<uid>`
unfoldable pub provider_id : String → String → String
provider_id az uid = "cce:////" <> az <> "/" <> uid

-- Whether the annotations name the pool; no annotation names none.
unfoldable pub is_in_pool : String → List (String × String) → Bool
is_in_pool pool_id annotations = elim (lookup node_pool_id_annotation annotations) [
  | none ↦ false
  | some id ↦ id == pool_id
]

-- A positive int32, by its bit pattern.
unfoldable pub is_positive : Option ℕ → Bool
is_positive none = false
is_positive (some n) = ltb 0 n && ltb n (2 ^ 31)

module _ {W C : Type 0} where
  unfoldable pub node_provider_id : Node → NodeMetadata → PoolM W C String
  node_provider_id node metadata = do
    az ← deref node.az
    uid ← deref metadata.uid
    pure (provider_id az uid)

  -- The loop over the nodes of the cluster.
  unfoldable pub provider_ids : String → List Node → PoolM W C (List String)
  provider_ids pool_id [] = pure []
  provider_ids pool_id (node ∷ nodes) =
      let rest = provider_ids pool_id nodes in
      do
        metadata ← deref node.metadata
        if is_in_pool pool_id metadata.annotations
            then (do id ← node_provider_id node metadata; ids ← rest; pure (id ∷ ids))
            else rest

  -- The `switch` on the phase.
  unfoldable pub apply_phase : Enums → String → PoolM W C (Unit {0})
  apply_phase enums phase =
      if phase == enums.deleting
      then modify (with_ready false)
      else if phase == enums.error || phase == enums.sold_out
      then (modify (with_ready false)
          >> modify (with_failure (some ("CCE nodeppol in failed " <> phase <> " status"))))
      else if phase == enums.synchronizing || phase == enums.synchronized
      then modify (with_ready false)
      else when (phase == "") (modify (with_ready true) >> modify (with_failure none))

module _ {W C : Type 0} (env : Env W C) (control_plane : ControlPlane C) (cce : CceClient W) where
  unfoldable pub refresh_nodes : Option ℕ → PoolM W C (Unit {0})
  refresh_nodes current_node = do
    pool ← get_obj
    let cluster_id = infra_cluster_id control_plane
    response ←
        wrap "failed to list nodes for cluster"
          (call (Call.list_nodes cluster_id) (cce.list_nodes cluster_id))
    nodes ← deref response
    ids ← provider_ids (infra_machine_pool_id pool) nodes
    replicas ← deref current_node
    modify (with_nodes ids replicas)

  unfoldable pub set_status : NodePool → PoolM W C (Unit {0})
  set_status np = do
    status ← deref np.status
    phase ← deref status.phase
    apply_phase env.enums phase
    pool ← get_obj
    when (pool.status.ready && is_positive status.current_node) (refresh_nodes status.current_node)
    wrap "failed to update nodepool" (patch_object env)
