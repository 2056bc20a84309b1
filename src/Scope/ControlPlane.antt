-- ===== src/Scope/ControlPlane.antt =====
-- pkg/cloud/scope/managedcontrolplane.go
pub mod Frame
use cluster_api_provider_cce.Prelude.{
  String, Option, none, some, List, [], ◌∷◌, Bool, true, false, insert, get_or,
}
use cluster_api_provider_cce.Errors.{new}
use cluster_api_provider_cce.Go.{pure, raise, get_obj, modify, call, wrap, ◌>>=◌, ◌>>◌}
use cluster_api_provider_cce.Env.{Env, Severity}
use cluster_api_provider_cce.Call.{Call, CpM}
use cluster_api_provider_cce.Api.Meta.{Cluster}
use cluster_api_provider_cce.Api.ControlPlane.{
  ControlPlane, infra_cluster_id, infra_cluster_id_label,
}

-- `lbs[key] = value`, after `lbs = map[string]string{}` where the map is nil.
unfoldable pub set_label :
    String → String → Option (List (String × String)) → Option (List (String × String))
set_label key value none = some ((key, value) ∷ [])
set_label key value (some labels) = some (insert key value labels)

module _ {C : Type 0} where
  unfoldable pub with_infra_cluster_id : String → ControlPlane C → ControlPlane C
  with_infra_cluster_id id cp = record cp {
    meta = record cp.meta { labels = set_label infra_cluster_id_label id cp.meta.labels };
  }

  -- Project, "0" where the spec names none.
  unfoldable pub project : ControlPlane C → String
  project cp = get_or "0" cp.spec.project

module _ {W C : Type 0} where
  unfoldable pub scope_infra_cluster_id : CpM W C String
  scope_infra_cluster_id = do cp ← get_obj; pure (infra_cluster_id cp)

  unfoldable pub set_infra_cluster_id : String → CpM W C (Unit {0})
  set_infra_cluster_id id = modify (with_infra_cluster_id id)

  -- conditions.MarkTrue and MarkFalse on the control plane
  unfoldable pub set_conditions : (C → C) → CpM W C (Unit {0})
  set_conditions f =
      modify (λ cp. record cp { status = record cp.status { conditions = f cp.status.conditions } })

module _ {W C : Type 0} (env : Env W C) where
  -- The scope needs its cluster and its control plane; `false` stands for a nil pointer.
  unfoldable pub new_control_plane_scope : Option Cluster → Bool → CpM W C Cluster
  new_control_plane_scope none has_control_plane =
      raise (new "failed to generate new scope from nil Cluster")
  new_control_plane_scope (some cluster) false =
      raise (new "failed to generate new scope from nil CCEManagedControlPlane")
  new_control_plane_scope (some cluster) true = do
    cp ← get_obj
    wrap "failed to init patch helper"
        (call (Call.read "patch helper") (env.kube.new_control_plane_helper cp))
    pure cluster

  unfoldable pub patch_object : CpM W C (Unit {0})
  patch_object = do
    cp ← get_obj
    call (Call.patch_control_plane cp) (env.kube.patch_control_plane cp)

  unfoldable pub close : CpM W C (Unit {0})
  close = patch_object

  unfoldable pub mark_true : String → CpM W C (Unit {0})
  mark_true t = set_conditions (env.conditions.mark_true t)

  unfoldable pub mark_false : String → String → Severity → String → CpM W C (Unit {0})
  mark_false t reason severity message =
      set_conditions (env.conditions.mark_false t reason severity message)
