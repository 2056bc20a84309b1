-- ===== src/Nodepool/Delete/Report.antt =====
-- The deferred report of deleteNodepoolAndWait of pkg/cloud/services/cce/nodepool.go.
use cluster_api_provider_cce.Prelude.{String, ◌≡◌, ◌∷◌, ◌==◌, arith, if◌then◌else◌}
use cluster_api_provider_cce.Go.{
  State, Outcome, ret, fail, panic, defer_with, catch, wrap, reterr, ◌>>=◌,
}
use cluster_api_provider_cce.Env.{Env, Severity}
use cluster_api_provider_cce.Call.{Call}
use cluster_api_provider_cce.Sdk.{CceClient}
use cluster_api_provider_cce.Api.ControlPlane.{ControlPlane}
use cluster_api_provider_cce.Api.MachinePool.{ManagedMachinePool, nodepool_ready}
use cluster_api_provider_cce.Scope.MachinePool.{
  patch_object, mark_false, set_conditions, nodepool_ready_false,
}
use cluster_api_provider_cce.Nodepool.Delete.{deleted_reason, request_deletion, report_deletion}

-- The severity that NodepoolReadyFalse gives to a message.
abbrev pub severity_of : String → Severity
severity_of message = if message == "" then Severity.info else Severity.warning

module _ {W C : Type 0} (env : Env W C) (control_plane : ControlPlane C) (cce : CceClient W) where
  -- The machine pool that is reported not ready for a reason.
  abbrev pub not_ready : String → String → ManagedMachinePool C → ManagedMachinePool C
  not_ready reason message pool = record pool {
    status = record pool.status {
      conditions =
          env.conditions.mark_false nodepool_ready reason (severity_of message) message
            pool.status.conditions;
    };
  }

  -- The report of an outcome of the deletion: only an error counts as a failure.
  abbrev pub reported : Outcome (Unit {0}) → ManagedMachinePool C → ManagedMachinePool C
  reported (fail e) = not_ready "DeletingFailed" (env.formats.error_text e)
  reported _ = not_ready deleted_reason ""

  report-obj :
      (r : Outcome (Unit {0})) (t : State W (Call C) (ManagedMachinePool C))
      → (report_deletion env control_plane cce (reterr r) t).1.obj ≡ reported r t.obj
  unfolding report_deletion nodepool_ready_false mark_false set_conditions patch_object catch wrap
      ◌>>=◌
  report-obj (ret u) t = ground arith
  report-obj (fail e) t = ground arith
  report-obj panic t = ground arith

  report-trace :
      (r : Outcome (Unit {0})) (t : State W (Call C) (ManagedMachinePool C))
      → (report_deletion env control_plane cce (reterr r) t).1.trace
        ≡ Call.patch_machine_pool (reported r t.obj) ∷ t.trace
  unfolding report_deletion nodepool_ready_false mark_false set_conditions patch_object catch wrap
      ◌>>=◌
  report-trace (ret u) t = ground arith
  report-trace (fail e) t = ground arith
  report-trace panic t = ground arith

  -- After the deletion's request and wait, the machine pool that is left in memory, and that the last
  -- call patches, is the pool reported not ready: as failed where the deletion has an error, and as
  -- deleted where it has none, also where it panicked.
  pub deletion-reported :
      (name : String) (s : State W (Call C) (ManagedMachinePool C))
      → let (r, t) = request_deletion env control_plane cce name s in
        let out =
          defer_with
            (request_deletion env control_plane cce name)
            (report_deletion env control_plane cce)
            s in
        (out.1.obj ≡ reported r t.obj)
        × (out.1.trace ≡ Call.patch_machine_pool (reported r t.obj) ∷ t.trace)
  unfolding defer_with
  deletion-reported name s =
      let (r, t) = request_deletion env control_plane cce name s in
      (report-obj r t, report-trace r t)
