-- ===== src/Manager.antt =====
-- What cmd/main.go and the controllers' SetupWithManager use of controller-runtime: the manager's
-- calls, as the trace of a start-up records them, and what they give.
use cluster_api_provider_cce.Prelude.{ℕ, String, Bool, Option, List}
use cluster_api_provider_cce.Errors.{Result}
use cluster_api_provider_cce.Go.{M}

-- controller.Options
pub record Options : Type 0 where
  pub max_concurrent_reconciles : ℕ
  pub recover_panic : Bool

-- ctrl.Options, with the fields that the code sets from flags
pub record ManagerOptions : Type 0 where
  pub metrics_bind_address : String
  pub health_probe_bind_address : String
  pub leader_election : Bool
  pub leader_election_id : String
  pub leader_election_namespace : String
  pub sync_period : ℕ  -- in seconds
  pub port : ℕ
  pub cert_dir : String

-- The map functions that watches run, by name.
pub data Mapper : Type 0 where
  cluster_to_infrastructure : String → Mapper  -- util.ClusterToInfrastructureMapFunc, for a kind
  machine_pool_to_infrastructure : Mapper
  managed_control_plane_to_managed_machine_pool : Mapper
  managed_cluster_to_managed_control_plane : Mapper
  managed_control_plane_to_managed_cluster : Mapper

-- The predicates package of cluster-api
pub data Predicate : Type 0 where
  no_predicate cluster_unpaused cluster_unpaused_and_infrastructure_ready : Predicate

pub record Watch : Type 0 where
  pub kind : String
  pub mapper : Mapper
  pub predicate : Predicate

-- The settings of a reconciler: the watch filter, and the period of the one that has a period.
pub record Reconciler : Type 0 where
  pub watch_filter_value : String
  pub wait_infra_period : Option ℕ

pub data Setup : Type 0 where
  validate_log_options : Setup
  get_config : Setup  -- ctrl.GetConfigOrDie
  new_manager : ManagerOptions → Setup
  gvk_for_object : String → Setup
  -- a controller for a kind, with its options, its reconciler, and the watches that its builder adds
  build : String → Options → Reconciler → List Watch → Setup
  watch : Watch → Setup
  add_healthz_check : String → Setup
  add_readyz_check : String → Setup
  start : Setup
  exit : ℕ → Setup

-- The manager: what each of the calls gives.
pub record Manager (W : Type 0) : Type 0 where
  pub run : Setup → W → Result (Unit {0}) × W

-- An action of the start-up: no object is in memory.
abbrev pub SetupM : Type 0 → Type 0
SetupM W = M W Setup (Unit {0}) (Unit {0})
