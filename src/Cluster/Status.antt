-- ===== src/Cluster/Status.antt =====
-- setStatus of pkg/cloud/services/cce/cluster.go: the phase of the CCE cluster, put into the status.
pub mod Laws
use cluster_api_provider_cce.Prelude.{String, ◌<>◌, Bool, true, false, Option, none, some, ◌==◌}
use cluster_api_provider_cce.Errors.{new}
use cluster_api_provider_cce.Go.{
  if◌then◌else◌, raise, get_obj, modify, deref, emit, wrap, when, ◌>>=◌, ◌>>◌,
}
use cluster_api_provider_cce.Env.{Env, Severity}
use cluster_api_provider_cce.Call.{Call, CpM}
use cluster_api_provider_cce.Sdk.{ClusterStatus}
use cluster_api_provider_cce.Api.ControlPlane.{
  ControlPlane, control_plane_creating, control_plane_updating,
}
use cluster_api_provider_cce.Scope.ControlPlane.{patch_object, mark_false}

module _ {C : Type 0} where
  unfoldable pub with_ready : Bool → ControlPlane C → ControlPlane C
  with_ready ready cp = record cp { status = record cp.status { ready = ready } }

  unfoldable pub with_failure : Option String → ControlPlane C → ControlPlane C
  with_failure failure cp = record cp { status = record cp.status { failure_message = failure } }

module _ {W C : Type 0} (env : Env W C) where
  -- The case "Unavailable": `Ready` falls before the reason and the message are read.
  unfoldable pub set_unavailable : ClusterStatus → CpM W C (Unit {0})
  set_unavailable status = do
    modify (with_ready false)
    reason ← deref status.reason
    message ← deref status.message
    modify (with_failure (some ("CCE cluster in unexpected " <> reason <> " reason. " <> message)))

  -- The case "Available": an ended creation or update is announced.
  unfoldable pub set_available : CpM W C (Unit {0})
  set_available = do
    modify (with_ready true)
    modify (with_failure none)
    cp ← get_obj
    when (env.conditions.is_true control_plane_creating cp.status.conditions) (do
      emit (Call.event "SuccessfulCreateCCEControlPlane")
      mark_false env control_plane_creating "created" Severity.info "")
    cp' ← get_obj
    when (env.conditions.is_true control_plane_updating cp'.status.conditions) (do
      mark_false env control_plane_updating "updated" Severity.info ""
      emit (Call.event "SuccessfulUpdateCCEControlPlane"))

  -- The `switch` on the phase.
  unfoldable pub apply_phase : ClusterStatus → String → CpM W C (Unit {0})
  apply_phase status phase =
      if phase == "Deleting"
      then modify (with_ready false)
      else if phase == "Unavailable"
      then set_unavailable status
      else if phase == "Available"
      then set_available
      else if phase == "Creating"
      then modify (with_ready false)
      else if phase == "Upgrading"
      then modify (with_ready true)
      else raise (new ("unexpected CCE cluster status " <> phase))

  unfoldable pub set_status : Option ClusterStatus → CpM W C (Unit {0})
  set_status status? = do
    status ← deref status?
    phase ← deref status.phase
    apply_phase status phase
    wrap "failed to update control plane" (patch_object env)
