-- ===== src/Scope/ControlPlane/Frame.antt =====
-- What the scope's own methods may touch.
use cluster_api_provider_cce.Prelude.{String, List}
use cluster_api_provider_cce.Go.Within.{Stays, Within-modify, Within-get_obj, Within-call}
use cluster_api_provider_cce.Env.{Env, Severity}
use cluster_api_provider_cce.Call.{Call}
use cluster_api_provider_cce.Api.ControlPlane.{ControlPlane}
use cluster_api_provider_cce.Scope.ControlPlane.{
  set_conditions, patch_object, mark_true, mark_false,
}

-- The edit of the conditions, as set_conditions makes it.
abbrev pub with_conditions : {C : Type 0} → (C → C) → ControlPlane C → ControlPlane C
with_conditions f cp = record cp {
  status = record cp.status { conditions = f cp.status.conditions };
}

module _ {W C : Type 0} (env : Env W C) (Q : ControlPlane C → Type 0) (allowed : Call C → Type 0)
    (before : List (Call C)) where
  module _ (on_conditions : (f : C → C) (o : ControlPlane C) → Q o → Q (with_conditions f o)) where
    pub conditions-Stays : (f : C → C) → Stays {W = W} Q allowed before (set_conditions f)
    unfolding set_conditions
    conditions-Stays f = Within-modify _ (on_conditions f)

    pub mark_true-Stays : (t : String) → Stays Q allowed before (mark_true env t)
    unfolding mark_true
    mark_true-Stays t = conditions-Stays (env.conditions.mark_true t)

    pub mark_false-Stays :
        (t r : String) (v : Severity) (m : String) → Stays Q allowed before (mark_false env t r v m)
    unfolding mark_false
    mark_false-Stays t r v m = conditions-Stays (env.conditions.mark_false t r v m)

  pub patch-Stays :
      ((o : ControlPlane C) → Q o → allowed (Call.patch_control_plane o))
      → Stays Q allowed before (patch_object env)
  unfolding patch_object
  patch-Stays on_patch = Within-get_obj _ (λ o q. Within-call _ _ (on_patch o q))
