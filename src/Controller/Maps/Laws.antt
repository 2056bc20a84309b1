-- ===== src/Controller/Maps/Laws.antt =====
-- What the map functions of the watches give, in internal/controller/.
use cluster_api_provider_cce.Prelude.{
  keep, String, ◌≡◌, refl, ap, ◌∙◌, Bool, false, ◌&&◌, ◌||◌, Option, some, List, [], ◌∷◌, map, ◌==◌,
  arith, Bool-cases, inl, inr,
}
use cluster_api_provider_cce.Errors.{ok}
use cluster_api_provider_cce.Go.{State, ret, ◌>>=◌}
use cluster_api_provider_cce.Env.{Env}
use cluster_api_provider_cce.Call.{Call}
use cluster_api_provider_cce.Api.Meta.{
  NamespacedName, MachinePool, OwnerReference, ObjectMeta, Cluster, ObjectReference,
}
use cluster_api_provider_cce.Api.ControlPlane.{ControlPlane}
use cluster_api_provider_cce.Logger.{Logr, Logger, with_values}
use cluster_api_provider_cce.Controller.Requests.{
  Watched, GroupKind, infrastructure_requests, all_requests, find_owner, get_owner_cluster_key,
}
use cluster_api_provider_cce.Controller.Maps.{
  pools_of_key, control_plane_to_machine_pools, owner_ref_requests, mapper_values,
  control_plane_to_managed_cluster,
}

-- Whether a machine pool's infrastructure is of the kind.
abbrev pub is_of_kind : GroupKind → MachinePool → Bool
is_of_kind gk m = gk.group == m.infrastructure_group && gk.kind == m.infrastructure_kind

abbrev pub infrastructure : MachinePool → NamespacedName
infrastructure m = record { namespace = m.meta.namespace; name = m.infrastructure_name }

all_requests-keep :
    (gk : GroupKind) (ms : List MachinePool)
    → all_requests gk ms ≡ map infrastructure (keep (is_of_kind gk) ms)
unfolding all_requests infrastructure_requests
all_requests-keep gk [] = refl
all_requests-keep gk (m ∷ ms) = elim (Bool-cases (is_of_kind gk m)) [
  | inl e ↦ rw (e, all_requests-keep gk ms) refl
  | inr e ↦ rw (e, all_requests-keep gk ms) refl
]

module _ {W C O : Type 0} (env : Env W C) where
  -- For a control plane that is not deleted, whose owner is a cluster and whose cluster's machine pools
  -- are listed, the requests are the infrastructure names of the machine pools whose infrastructure is
  -- of the kind, in their order and in their own namespaces.
  pub machine_pools-keep :
      (gk : GroupKind) (cp : ControlPlane C) (ref : OwnerReference) (ms : List MachinePool) (w : W)
      (s : State W (Call C) O)
      → cp.meta.deleted ≡ false
      → find_owner env.kube.parse_group_version "Cluster" cp.meta.owner_references ≡ ok (some ref)
      → env.kube.list_machine_pools cp.meta.namespace ref.name s.world ≡ (ok ms, w)
      → control_plane_to_machine_pools env gk (Watched.control_plane cp) s ≡ (
        ret (map infrastructure (keep (is_of_kind gk) ms)),
        record s { world = w; trace = Call.read "MachinePoolList" ∷ s.trace },
      )
  unfolding control_plane_to_machine_pools pools_of_key get_owner_cluster_key ◌>>=◌
  machine_pools-keep gk cp ref ms w s d o l = rw (d, o, l, all_requests-keep gk ms) refl

module _ {W C L : Type 0} (env : Env W C) (logr : Logr L) where
  -- The controller's handler, on one event after the other.
  abbrev pub handle_all :
      List (ControlPlane C) → State W (Call C) (Logger L) → State W (Call C) (Logger L)
  handle_all [] s = s
  handle_all (cp ∷ cps) s =
      handle_all cps (control_plane_to_managed_cluster env logr (Watched.control_plane cp) s).1

  -- The logger with the values of each event on top of those of the events before it.
  abbrev pub grown : List (ControlPlane C) → L → L
  grown [] l = l
  grown (cp ∷ cps) l = grown cps (logr.with_values (mapper_values env logr cp) l)

  refs-obj :
      (kind : String) (ref : Cluster → Option ObjectReference) (meta : ObjectMeta)
      (s : State W (Call C) (Logger L))
      → (owner_ref_requests env kind ref meta s).1.obj ≡ s.obj
  unfolding owner_ref_requests ◌>>=◌
  refs-obj kind ref meta s = ground arith

  one_event :
      (cp : ControlPlane C) (s : State W (Call C) (Logger L))
      → (control_plane_to_managed_cluster env logr (Watched.control_plane cp) s).1.obj
        ≡ record { logger = logr.with_values (mapper_values env logr cp) s.obj.logger }
  unfolding control_plane_to_managed_cluster with_values ◌>>=◌
  one_event cp s =
      elim (Bool-cases
        (cp.meta.deleted || env.formats.endpoint_is_zero cp.spec.control_plane_endpoint)) [
          | inl e ↦ rw e refl
          | inr e ↦ rw e (refs-obj _ _ _ _)
        ]

  -- However often the handler runs and whatever it finds, the controller's one logger gets the two
  -- values of each control plane that it handles, on top of those of all that it handled before.
  pub handle_all-grown :
      (cps : List (ControlPlane C)) (s : State W (Call C) (Logger L))
      → (handle_all cps s).obj.logger ≡ grown cps s.obj.logger
  handle_all-grown [] s = refl
  handle_all-grown (cp ∷ cps) s =
      handle_all-grown cps _ ∙ ap (λ (c : Logger L). grown cps c.logger) (one_event cp s)
