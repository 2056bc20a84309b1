-- ===== src/Controller/ControlPlane/Closing.antt =====
-- The deferred close of the control plane's scope.
use cluster_api_provider_cce.Prelude.{ℕ, ◌≡◌, sym, ap, ◌∙◌, Option, List, ◌∷◌, arith}
use cluster_api_provider_cce.Errors.{Error, ok}
use cluster_api_provider_cce.Go.{State, ◌>>=◌, attempt, defer_with}
use cluster_api_provider_cce.Env.{Env}
use cluster_api_provider_cce.Call.{Call, CpM}
use cluster_api_provider_cce.Api.Meta.{Cluster}
use cluster_api_provider_cce.Api.ControlPlane.{ControlPlane}
use cluster_api_provider_cce.Scope.ControlPlane.{new_control_plane_scope, patch_object, close}
use cluster_api_provider_cce.Controller.ControlPlane.{close_scope, run_scoped}

module _ {W C : Type 0} (env : Env W C) where
  pub close-obj :
      (r : Option Error) (s : State W (Call C) (ControlPlane C))
      → (close_scope env r s).1.obj ≡ s.obj
  unfolding close_scope close patch_object ◌>>=◌ attempt
  close-obj r s = ground arith

  close-trace :
      (r : Option Error) (s : State W (Call C) (ControlPlane C))
      → (close_scope env r s).1.trace ≡ Call.patch_control_plane s.obj ∷ s.trace
  unfolding close_scope close patch_object ◌>>=◌ attempt
  close-trace r s = ground arith

  -- The deferred close, after whatever the body did.
  pub deferred-trace :
      {A : Type 0} (m : CpM W C A) (s : State W (Call C) (ControlPlane C))
      → (defer_with m (close_scope env) s).1.trace
        ≡ Call.patch_control_plane (defer_with m (close_scope env) s).1.obj ∷ (m s).1.trace
  unfolding defer_with
  deferred-trace m s =
      close-trace _ _ ∙ ap (λ o. Call.patch_control_plane o ∷ (m s).1.trace) (sym (close-obj _ _))

  -- Where the scope's patch helper is made, the last call of the reconciliation of a control plane is
  -- the patch of the object as the reconciliation left it in memory, whether it returns, fails or
  -- panics.
  pub run_scoped-persists :
      (period : ℕ) (cluster : Cluster) (s : State W (Call C) (ControlPlane C))
      → (env.kube.new_control_plane_helper s.obj s.world).0 ≡ ok tt
      → (t : List (Call C)) × ((run_scoped env period cluster s).1.trace
          ≡ Call.patch_control_plane (run_scoped env period cluster s).1.obj ∷ t)
  unfolding run_scoped new_control_plane_scope ◌>>=◌
  run_scoped-persists period cluster s e = rw e (_, deferred-trace _ _)
