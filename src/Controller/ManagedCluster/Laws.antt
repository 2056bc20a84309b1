-- ===== src/Controller/ManagedCluster/Laws.antt =====
-- What the reconciler of managed clusters copies from the control plane.
use cluster_api_provider_cce.Prelude.{◌≡◌, true, ◌∷◌, arith}
use cluster_api_provider_cce.Go.{State, ret, ◌>>=◌}
use cluster_api_provider_cce.Env.{Env}
use cluster_api_provider_cce.Call.{Call}
use cluster_api_provider_cce.Api.ControlPlane.{ControlPlane}
use cluster_api_provider_cce.Api.ManagedCluster.{ManagedCluster}
use cluster_api_provider_cce.Controller.Requests.{done}
use cluster_api_provider_cce.Controller.ManagedCluster.{with_control_plane, update_from}

module _ {W C : Type 0} (env : Env W C) (control_plane : ControlPlane C)
    (s : State W (Call C) ManagedCluster) where
  -- An update that returns has patched the managed cluster as its last call, with Ready true and the
  -- endpoint of the control plane, also where that endpoint has no host yet.
  pub update-persists :
      (update_from env control_plane s).0 ≡ ret done
      → (update_from env control_plane s).1.trace
        ≡ Call.patch_managed_cluster (record s.obj {
          ready = true;
          control_plane_endpoint = control_plane.spec.control_plane_endpoint;
        })
          ∷ (Call.read "patch helper" ∷ s.trace)
  unfolding update_from with_control_plane ◌>>=◌
  update-persists h = ground arith
