-- ===== src/Network/Safety.antt =====
-- What ReconcileNetwork changes and calls.
use cluster_api_provider_cce.Prelude.{◌≡◌, refl}
use cluster_api_provider_cce.Go.{State}
use cluster_api_provider_cce.Go.Within.{Within, run_within}
use cluster_api_provider_cce.Env.{Env}
use cluster_api_provider_cce.Call.{Call}
use cluster_api_provider_cce.Api.Meta.{Cluster}
use cluster_api_provider_cce.Api.ControlPlane.{ControlPlane}
use cluster_api_provider_cce.Scope.ControlPlane.Frame.{with_conditions}
use cluster_api_provider_cce.Service.{Service}
use cluster_api_provider_cce.Network.{with_vpc_id, with_subnet_id, reconcile_network}
use cluster_api_provider_cce.Network.Frame.{network-Stays}

-- `cp` with the parts that the network's reconciliation owns taken from `old`.
abbrev pub but_network : {C : Type 0} → ControlPlane C → ControlPlane C → ControlPlane C
but_network old cp =
    with_vpc_id old.spec.network.vpc_id
      (with_subnet_id old.spec.network.subnet_id (with_conditions (λ _. old.status.conditions) cp))

-- The calls of the network's reconciliation; what is patched differs from `old` in those parts alone.
abbrev pub NetworkCall : {C : Type 0} → ControlPlane C → Call C → Type 0
NetworkCall old (Call.create_vpc r) = Unit {0}
NetworkCall old (Call.create_subnet r) = Unit {0}
NetworkCall old (Call.list_subnets id) = Unit {0}
NetworkCall old (Call.patch_control_plane cp) = but_network old cp ≡ old
NetworkCall old _ = ⊥

-- ReconcileNetwork, however it ends, changes the control plane in memory in its VPC id, its subnet id
-- and its conditions alone, and makes no calls but to create a VPC, to create a subnet, to list the
-- subnets, and to patch a control plane that differs from the first one in those parts alone.
pub network-Within :
    {W C : Type 0} (env : Env W C) (cluster : Cluster) (svc : Service W)
    (s : State W (Call C) (ControlPlane C))
    → Within
        (λ o. but_network s.obj o ≡ s.obj)
        (NetworkCall s.obj)
        s.trace
        (reconcile_network env cluster svc s).1
unfolding with_vpc_id with_subnet_id
network-Within env cluster svc s =
    run_within _ _ _
      (λ before.
        network-Stays env cluster svc _ _ before (λ f o h. h) (λ o h. h) (λ id o h. h) (λ id o h. h)
          (λ r. tt) (λ r. tt) (λ id. tt))
      s refl
