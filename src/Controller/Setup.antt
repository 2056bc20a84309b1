-- ===== src/Controller/Setup.antt =====
-- SetupWithManager of the three controllers of internal/controller/.
use cluster_api_provider_cce.Prelude.{List, [], ◌∷◌}
use cluster_api_provider_cce.Errors.{new}
use cluster_api_provider_cce.Go.{raise, call, catch, wrap, ◌>>◌}
use cluster_api_provider_cce.Manager.{
  Options, Mapper, Predicate, Watch, Reconciler, Setup, Manager, SetupM,
}

-- The kind is that of the new object's type data, which is empty.
abbrev pub control_plane_clusters : Watch
control_plane_clusters = record {
  kind = "Cluster";
  mapper = Mapper.cluster_to_infrastructure "";
  predicate = Predicate.cluster_unpaused_and_infrastructure_ready;
}

abbrev pub control_plane_managed_clusters : Watch
control_plane_managed_clusters = record {
  kind = "CCEManagedCluster";
  mapper = Mapper.managed_cluster_to_managed_control_plane;
  predicate = Predicate.no_predicate;
}

abbrev pub managed_cluster_clusters : Watch
managed_cluster_clusters = record {
  kind = "Cluster";
  mapper = Mapper.cluster_to_infrastructure "CCEManagedCluster";
  predicate = Predicate.cluster_unpaused;
}

abbrev pub managed_cluster_control_planes : Watch
managed_cluster_control_planes = record {
  kind = "CCEManagedControlPlane";
  mapper = Mapper.managed_control_plane_to_managed_cluster;
  predicate = Predicate.no_predicate;
}

abbrev pub machine_pool_watches : List Watch
machine_pool_watches =
    record {
      kind = "MachinePool";
      mapper = Mapper.machine_pool_to_infrastructure;
      predicate = Predicate.no_predicate;
    }
    ∷ (record {
      kind = "CCEManagedControlPlane";
      mapper = Mapper.managed_control_plane_to_managed_machine_pool;
      predicate = Predicate.no_predicate;
    }
        ∷ [])

module _ {W : Type 0} (mgr : Manager W) where
  unfoldable pub request : Setup → SetupM W
  request c = call c (mgr.run c)

  -- CCEManagedControlPlaneReconciler; the cause of the last error is dropped.
  unfoldable pub setup_control_plane : Options → Reconciler → SetupM W
  setup_control_plane options reconciler = do
    wrap "failed setting up the CCEManagedControlPlane controller manager"
        (request (Setup.build "CCEManagedControlPlane" options reconciler []))
    wrap "failed adding a watch for ready clusters" (request (Setup.watch control_plane_clusters))
    catch (request (Setup.watch control_plane_managed_clusters))
        (λ e. raise (new "failed adding a watch for CCEManagedCluster"))

  -- CCEManagedClusterReconciler
  unfoldable pub setup_managed_cluster : Options → Reconciler → SetupM W
  setup_managed_cluster options reconciler = do
    wrap "error creating controller"
        (request (Setup.build "CCEManagedCluster" options reconciler []))
    wrap "failed adding a watch for ready clusters" (request (Setup.watch managed_cluster_clusters))
    wrap "failed adding watch on CCEManagedControlPlane"
        (request (Setup.watch managed_cluster_control_planes))

  -- CCEManagedMachinePoolReconciler
  unfoldable pub setup_machine_pool : Options → Reconciler → SetupM W
  setup_machine_pool options reconciler = do
    wrap "failed to find GVK for CCEManagedMachinePool"
        (request (Setup.gvk_for_object "CCEManagedMachinePool"))
    request (Setup.build "CCEManagedMachinePool" options reconciler machine_pool_watches)
