-- ===== src/Cluster/Status/Laws.antt =====
-- How the phase of the CCE cluster shows in the control plane's status.
use cluster_api_provider_cce.Prelude.{
  String, ◌<>◌, ◌≡◌, refl, sym, ap, ◌∙◌, Bool, true, false, ◌||◌, some, List, ◌∷◌, ◌==◌, arith,
}
use cluster_api_provider_cce.Errors.{new}
use cluster_api_provider_cce.Go.{
  State, Outcome, ret, fail, panic, ◌>>=◌, ◌>>◌, deref, wrap, continue,
}
use cluster_api_provider_cce.Env.{Env}
use cluster_api_provider_cce.Call.{Call}
use cluster_api_provider_cce.Sdk.{ClusterStatus}
use cluster_api_provider_cce.Api.ControlPlane.{ControlPlane}
use cluster_api_provider_cce.Scope.ControlPlane.{patch_object, mark_false, set_conditions}
use cluster_api_provider_cce.Cluster.Status.{
  apply_phase, set_status, set_available, set_unavailable, with_ready, with_failure,
}

-- The phases that the `switch` names.
pub data Phase : Type 0 where
  deleting unavailable available creating upgrading : Phase

abbrev pub phase_text : Phase → String
phase_text deleting = "Deleting"
phase_text unavailable = "Unavailable"
phase_text available = "Available"
phase_text creating = "Creating"
phase_text upgrading = "Upgrading"

-- The phases in which the control plane serves.
abbrev pub shows_ready : Phase → Bool
shows_ready available = true
shows_ready upgrading = true
shows_ready _ = false

abbrev pub is_known : String → Bool
is_known phase =
    phase == "Deleting"
    || (phase == "Unavailable"
        || (phase == "Available" || (phase == "Creating" || phase == "Upgrading")))

module _ {W C : Type 0} (env : Env W C) (s : State W (Call C) (ControlPlane C)) where
  -- A phase that is not known is an error, and nothing is written.
  pub set_status-unknown :
      (status : ClusterStatus) (phase : String)
      → status.phase ≡ some phase
      → is_known phase ≡ false
      → set_status env (some status) s ≡ (fail (new ("unexpected CCE cluster status " <> phase)), s)
  unfolding set_status apply_phase ◌>>=◌
  set_status-unknown status phase e u = ground arith

  -- With its phase at hand, setStatus is the `switch` and the patch.
  set_status-step :
      (status : ClusterStatus) (phase : String)
      → status.phase ≡ some phase
      → set_status env (some status) s
        ≡ (apply_phase env status phase >> wrap "failed to update control plane" (patch_object env))
            s
  unfolding set_status ◌>>=◌
  set_status-step status phase e = rw (e, deref)

  pub apply_phase-ready :
      (status : ClusterStatus) (p : Phase)
      → (apply_phase env status (phase_text p) s).1.obj.status.ready ≡ shows_ready p
  unfolding apply_phase set_available set_unavailable with_ready with_failure mark_false
      set_conditions ◌>>=◌
  apply_phase-ready status deleting = refl
  apply_phase-ready status unavailable = ground arith
  apply_phase-ready status available = ground arith
  apply_phase-ready status creating = refl
  apply_phase-ready status upgrading = refl

  -- The patch leaves the object in memory alone.
  then_patch-obj :
      (r : Outcome (Unit {0})) (t : State W (Call C) (ControlPlane C)) (msg : String)
      → (continue r (λ _. wrap msg (patch_object env)) t).1.obj ≡ t.obj
  unfolding patch_object ◌>>=◌
  then_patch-obj (ret _) t msg = ground arith
  then_patch-obj (fail e) t msg = refl
  then_patch-obj panic t msg = refl

  -- Where the `switch` gets through, the object is persisted as the `switch` left it.
  then_patch-trace :
      (r : Outcome (Unit {0})) (t : State W (Call C) (ControlPlane C)) (msg : String)
      → (continue r (λ _. wrap msg (patch_object env)) t).0 ≡ ret tt
      → (continue r (λ _. wrap msg (patch_object env)) t).1.trace
        ≡ Call.patch_control_plane t.obj ∷ t.trace
  unfolding patch_object ◌>>=◌
  then_patch-trace (ret _) t msg h = ground arith
  then_patch-trace (fail e) t msg h = cc
  then_patch-trace panic t msg h = cc

  -- For a phase that the code knows, `Ready` becomes what the phase says (true for "Available" and
  -- "Upgrading", false for the others), also where a later step of setStatus fails or panics.
  pub set_status-ready :
      (status : ClusterStatus) (p : Phase)
      → status.phase ≡ some (phase_text p)
      → (set_status env (some status) s).1.obj.status.ready ≡ shows_ready p
  unfolding ◌>>=◌
  set_status-ready status p e = rw (set_status-step status (phase_text p) e) (
      ap (λ (o : ControlPlane C). o.status.ready) (then_patch-obj _ _ _)
      ∙ apply_phase-ready status p)

  -- setStatus that returns without an error has persisted the object: the last call is the patch of
  -- the object that is left in memory.
  pub set_status-persists :
      (status : ClusterStatus) (phase : String)
      → status.phase ≡ some phase
      → (set_status env (some status) s).0 ≡ ret tt
      → (t : List (Call C)) × ((set_status env (some status) s).1.trace
          ≡ Call.patch_control_plane (set_status env (some status) s).1.obj ∷ t)
  unfolding ◌>>=◌
  set_status-persists status phase e = rw (set_status-step status phase e) (λ h.
      let (r, t) = apply_phase env status phase s in
      (
        t.trace,
        then_patch-trace r t _ h
            ∙ ap (λ o. Call.patch_control_plane o ∷ t.trace) (sym (then_patch-obj r t _)),
      ))
