-- ===== src/Main/Plan.antt =====
-- The start-up of cmd/main.go against its plan: a list of calls.
use cluster_api_provider_cce.Prelude.{◌≡◌, true, none, some, List, [], ◌∷◌}
use cluster_api_provider_cce.Errors.{new}
use cluster_api_provider_cce.Go.{State}
use cluster_api_provider_cce.Manager.{Options, Reconciler, Setup, Manager}
use cluster_api_provider_cce.Controller.Setup.{
  control_plane_clusters, control_plane_managed_clusters, managed_cluster_clusters,
  managed_cluster_control_planes, machine_pool_watches, setup_control_plane, setup_managed_cluster,
  setup_machine_pool,
}
use cluster_api_provider_cce.Main.{
  Flags, manager_options, controller_options, reconciler, timed_reconciler, main,
}
use cluster_api_provider_cce.Main.Performs.{
  unnamed, run_plan, Performs, request-Performs, catch-Performs, wrap-Performs, then-Performs,
  last-Performs,
}

-- The calls of a start-up in their order.
abbrev pub plan : Flags → List Setup
plan flags =
    let options : Options = record {
      max_concurrent_reconciles = flags.cce_cluster_concurrency;
      recover_panic = true;
    } in
    let filtered : Reconciler = record {
      watch_filter_value = flags.watch_filter_value;
      wait_infra_period = none;
    } in
    let timed : Reconciler = record filtered { wait_infra_period = some flags.wait_infra_period } in
    Setup.validate_log_options
    ∷ (Setup.get_config
        ∷ (Setup.new_manager (manager_options flags)
            ∷ (Setup.build "CCEManagedControlPlane" options timed []
                ∷ (Setup.watch control_plane_clusters
                    ∷ (Setup.watch control_plane_managed_clusters
                        ∷ (Setup.build "CCEManagedCluster" options filtered []
                            ∷ (Setup.watch managed_cluster_clusters
                                ∷ (Setup.watch managed_cluster_control_planes
                                    ∷ (Setup.gvk_for_object "CCEManagedMachinePool"
                                        ∷ (Setup.build "CCEManagedMachinePool" options filtered
                                              machine_pool_watches
                                            ∷ (Setup.add_healthz_check "healthz"
                                                ∷ (Setup.add_readyz_check "readyz"
                                                    ∷ (Setup.start ∷ [])))))))))))))

module _ {W : Type 0} (mgr : Manager W) where
  control_plane-Performs :
      (options : Options) (r : Reconciler)
      → Performs mgr
          (Setup.build "CCEManagedControlPlane" options r []
            ∷ (Setup.watch control_plane_clusters
                ∷ (Setup.watch control_plane_managed_clusters ∷ [])))
          (setup_control_plane mgr options r)
  unfolding setup_control_plane
  control_plane-Performs options r =
      then-Performs mgr _ _ _ _ (wrap-Performs mgr _ _ _ (request-Performs mgr _)) (
        then-Performs mgr _ _ _ _ (wrap-Performs mgr _ _ _ (request-Performs mgr _)) (
          catch-Performs mgr _ _ (λ e. new "failed adding a watch for CCEManagedCluster")
            (request-Performs mgr _)))

  managed_cluster-Performs :
      (options : Options) (r : Reconciler)
      → Performs mgr
          (Setup.build "CCEManagedCluster" options r []
            ∷ (Setup.watch managed_cluster_clusters
                ∷ (Setup.watch managed_cluster_control_planes ∷ [])))
          (setup_managed_cluster mgr options r)
  unfolding setup_managed_cluster
  managed_cluster-Performs options r =
      then-Performs mgr _ _ _ _ (wrap-Performs mgr _ _ _ (request-Performs mgr _)) (
        then-Performs mgr _ _ _ _ (wrap-Performs mgr _ _ _ (request-Performs mgr _))
          (wrap-Performs mgr _ _ _ (request-Performs mgr _)))

  machine_pool-Performs :
      (options : Options) (r : Reconciler)
      → Performs mgr
          (Setup.gvk_for_object "CCEManagedMachinePool"
            ∷ (Setup.build "CCEManagedMachinePool" options r machine_pool_watches ∷ []))
          (setup_machine_pool mgr options r)
  unfolding setup_machine_pool
  machine_pool-Performs options r =
      then-Performs mgr _ _ _ _ (wrap-Performs mgr _ _ _ (request-Performs mgr _))
        (request-Performs mgr _)

module _ {W : Type 0} (mgr : Manager W) (flags : Flags) (s : State W Setup (Unit {0})) where
  -- Up to the error's text, the start-up is the plan: its fourteen calls with the flags' settings in their
  -- order, each made once and only after those before it succeeded, and the exit of the process after the first that fails.
  pub main-planned : unnamed (main mgr flags s) ≡ unnamed (run_plan mgr (plan flags) s)
  unfolding main reconciler timed_reconciler controller_options
  main-planned =
      (request-Performs mgr _).at _ _
        ((request-Performs mgr _).at _ _ (
          (request-Performs mgr _).at _ _ (
            (control_plane-Performs mgr _ _).at _ _ (
              (managed_cluster-Performs mgr _ _).at _ _ (
                (machine_pool-Performs mgr _ _).at _ _ (
                  (request-Performs mgr _).at _ _ (
                    (request-Performs mgr _).at _ _
                      (last-Performs mgr _ _ (request-Performs mgr _)))))))))
        s
