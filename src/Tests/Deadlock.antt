-- ===== src/Tests/Deadlock.antt =====
-- The theorem on the two controllers at a concrete input.
use cluster_api_provider_cce.Prelude.{ℕ, ◌≡◌, refl, sym, true, some, List, [], ◌∷◌}
use cluster_api_provider_cce.Go.Within.{All}
use cluster_api_provider_cce.Env.{Env}
use cluster_api_provider_cce.Api.Meta.{NamespacedName}
use cluster_api_provider_cce.Api.ControlPlane.{ControlPlane}
use cluster_api_provider_cce.Controller.Deadlock.{Turn, run, deadlock}
use cluster_api_provider_cce.Controller.Deadlock.Worlds.{Idle, Stalled}
use cluster_api_provider_cce.Tests.World.{Marks}
use cluster_api_provider_cce.Tests.Cloud.{env, kube, answer}
use cluster_api_provider_cce.Tests.Objects.{control_plane, machine_pool}
use cluster_api_provider_cce.Tests.Pools.{deleted, owned_cluster}

abbrev leaving : ControlPlane Marks
leaving =
    let cp = control_plane "cce-1" "vpc-1" "subnet-1" in
    record cp { meta = record cp.meta { deleted = true } }

-- The control plane and its machine pool, both in deletion.
abbrev stalled_env : Env ℕ Marks
stalled_env = record env {
  kube = record kube {
    get_control_plane = λ key. answer leaving;
    get_owner_cluster = λ meta. answer (some owned_cluster);
    get_managed_machine_pool = λ key. answer deleted;
    get_machine_pool = λ key. answer machine_pool;
    get_cluster_from_metadata = λ meta. answer owned_cluster;
    list_managed_machine_pools = λ namespace name. answer (deleted ∷ []);
  };
}

abbrev AnyWorld : ℕ → Type 0
AnyWorld w = Unit {0}

stalled : Stalled stalled_env AnyWorld
stalled = record {
  control_planes = λ key w s cp e. let p : leaving ≡ cp = cc in rw (sym p) (refl, (refl, refl));
  has_pools = λ namespace name w s e. cc;
  get_control_plane = λ key w s. tt;
  list_pools = λ namespace name w s. tt;
  get_pool = λ key w s. tt;
  get_owner_pool = λ key w s. tt;
  get_owner = λ meta w s. tt;
  get_cluster = λ meta w s. tt;
  make_helper = λ cp w s. tt;
  patch = λ cp w d s. tt;
}

abbrev key : NamespacedName
key = record { namespace = "default"; name = "demo" }

abbrev turns : List Turn
turns = Turn.control_plane key ∷ (Turn.machine_pool key ∷ (Turn.control_plane key ∷ []))

deadlock_example :
    AnyWorld (run stalled_env 60 turns (record { world = 0; obj = tt; trace = [] })).world
    × All
        (Idle stalled_env)
        (run stalled_env 60 turns (record { world = 0; obj = tt; trace = [] })).trace
deadlock_example = deadlock stalled_env 60 AnyWorld stalled turns 0 tt
