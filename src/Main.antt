-- ===== src/Main.antt =====
-- cmd/main.go: the flags and the start-up.
pub mod Performs
pub mod Plan
use cluster_api_provider_cce.Prelude.{ℕ, ◌*◌, String, Bool, true, false, none, some}
use cluster_api_provider_cce.Go.{raise, emit, catch, ◌>>=◌, ◌>>◌}
use cluster_api_provider_cce.Manager.{Reconciler, Options, ManagerOptions, Setup, Manager, SetupM}
use cluster_api_provider_cce.Controller.Setup.{
  request, setup_control_plane, setup_managed_cluster, setup_machine_pool,
}

-- The variables that initFlags binds; periods in seconds. The log options are the library's.
pub record Flags : Type 0 where
  pub metrics_addr : String
  pub enable_leader_election : Bool
  pub leader_election_namespace : String
  pub probe_addr : String
  pub webhook_port : ℕ
  pub webhook_cert_dir : String
  pub wait_infra_period : ℕ
  pub sync_period : ℕ
  pub cce_cluster_concurrency : ℕ
  pub watch_filter_value : String

-- initFlags: the values without arguments on the command line
abbrev pub init_flags : Flags
init_flags = record {
  metrics_addr = ":8080";
  enable_leader_election = false;
  leader_election_namespace = "";
  probe_addr = ":8081";
  webhook_port = 9443;
  webhook_cert_dir = "/tmp/k8s-webhook-server/serving-certs/";
  wait_infra_period = 60;
  sync_period = 10 * 60;
  cce_cluster_concurrency = 5;
  watch_filter_value = "";
}

unfoldable pub manager_options : Flags → ManagerOptions
manager_options flags = record {
  metrics_bind_address = flags.metrics_addr;
  health_probe_bind_address = flags.probe_addr;
  leader_election = flags.enable_leader_election;
  leader_election_id = "5053f7c0.cluster.x-k8s.io";
  leader_election_namespace = flags.leader_election_namespace;
  sync_period = flags.sync_period;
  port = flags.webhook_port;
  cert_dir = flags.webhook_cert_dir;
}

unfoldable pub controller_options : Flags → Options
controller_options flags = record {
  max_concurrent_reconciles = flags.cce_cluster_concurrency;
  recover_panic = true;
}

unfoldable pub reconciler : Flags → Reconciler
reconciler flags = record {
  watch_filter_value = flags.watch_filter_value;
  wait_infra_period = none;
}

-- The reconciler of control planes has the period, too.
unfoldable pub timed_reconciler : Flags → Reconciler
timed_reconciler flags = record {
  watch_filter_value = flags.watch_filter_value;
  wait_infra_period = some flags.wait_infra_period;
}

-- `if err := m; err != nil { …; os.Exit(1) }`: the process ends, with nothing after it.
unfoldable pub or_exit : {W : Type 0} → SetupM W → SetupM W
or_exit m = catch m (λ e. emit (Setup.exit 1) >> raise e)

-- The reconcilers that main makes share the client.
module _ {W : Type 0} (mgr : Manager W) (flags : Flags) where
  unfoldable pub main : SetupM W
  main = do
    or_exit (request mgr Setup.validate_log_options)
    or_exit (request mgr Setup.get_config)
    or_exit (request mgr (Setup.new_manager (manager_options flags)))
    or_exit (setup_control_plane mgr (controller_options flags) (timed_reconciler flags))
    or_exit (setup_managed_cluster mgr (controller_options flags) (reconciler flags))
    or_exit (setup_machine_pool mgr (controller_options flags) (reconciler flags))
    or_exit (request mgr (Setup.add_healthz_check "healthz"))
    or_exit (request mgr (Setup.add_readyz_check "readyz"))
    or_exit (request mgr Setup.start)
