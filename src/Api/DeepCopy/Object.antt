-- ===== src/Api/DeepCopy/Object.antt =====
-- DeepCopyObject of the API types, in zz_generated.deepcopy.go.
use cluster_api_provider_cce.Prelude.{ℕ, Option, none, some}
use cluster_api_provider_cce.Memory.{Pointer, Mem, pure, ◌>>=◌}
use cluster_api_provider_cce.Api.Memory.{Layouts}
use cluster_api_provider_cce.Api.Memory.Cells.{Cell}
use cluster_api_provider_cce.Api.DeepCopy.{Library}
use cluster_api_provider_cce.Api.DeepCopy.ManagedCluster.{copy_cluster, copy_cluster_list}
use cluster_api_provider_cce.Api.DeepCopy.ControlPlane.{copy_control_plane, copy_control_plane_list}
use cluster_api_provider_cce.Api.DeepCopy.MachinePool.{copy_machine_pool, copy_machine_pool_list}

-- A runtime.Object that is not the nil interface: a pointer that is not nil, with its type.
pub data Object : Type 0 where
  cluster : ℕ → Object
  cluster_list : ℕ → Object
  control_plane : ℕ → Object
  control_plane_list : ℕ → Object
  machine_pool : ℕ → Object
  machine_pool_list : ℕ → Object

-- `if c != nil { return c }; return nil`
abbrev pub as_object : (ℕ → Object) → Pointer → Option Object
as_object type none = none
as_object type (some p) = some (type p)

module _ {L V : Layouts} (lib : Library L V) where
  unfoldable pub copy_cluster_object : Pointer → Mem (Cell L) (Option Object)
  copy_cluster_object p = do c ← copy_cluster lib p; pure (as_object Object.cluster c)

  unfoldable pub copy_cluster_list_object : Pointer → Mem (Cell L) (Option Object)
  copy_cluster_list_object p = do
    c ← copy_cluster_list lib p
    pure (as_object Object.cluster_list c)

  unfoldable pub copy_control_plane_object : Pointer → Mem (Cell L) (Option Object)
  copy_control_plane_object p = do
    c ← copy_control_plane lib p
    pure (as_object Object.control_plane c)

  unfoldable pub copy_control_plane_list_object : Pointer → Mem (Cell L) (Option Object)
  copy_control_plane_list_object p = do
    c ← copy_control_plane_list lib p
    pure (as_object Object.control_plane_list c)

  unfoldable pub copy_machine_pool_object : Pointer → Mem (Cell L) (Option Object)
  copy_machine_pool_object p = do
    c ← copy_machine_pool lib p
    pure (as_object Object.machine_pool c)

  unfoldable pub copy_machine_pool_list_object : Pointer → Mem (Cell L) (Option Object)
  copy_machine_pool_list_object p = do
    c ← copy_machine_pool_list lib p
    pure (as_object Object.machine_pool_list c)
