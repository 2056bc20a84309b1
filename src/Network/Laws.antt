-- ===== src/Network/Laws.antt =====
-- What ReconcileNetwork promises.
use cluster_api_provider_cce.Prelude.{◌≡◌, false, ◌==◌}
use cluster_api_provider_cce.Go.{State, ret, ◌>>=◌, catch}
use cluster_api_provider_cce.Env.{Env}
use cluster_api_provider_cce.Call.{Call}
use cluster_api_provider_cce.Api.Meta.{Cluster}
use cluster_api_provider_cce.Api.ControlPlane.{ControlPlane, vpc_ready, subnets_ready}
use cluster_api_provider_cce.Scope.ControlPlane.{mark_true, set_conditions}
use cluster_api_provider_cce.Service.{Service}
use cluster_api_provider_cce.Network.{reconcile_vpc, reconcile_subnets, reconcile_network}

abbrev pub marked :
    {W C : Type 0} → Env W C → State W (Call C) (ControlPlane C) → State W (Call C) (ControlPlane C)
marked env s =
    let mark = env.conditions.mark_true in
    record s {
      obj = record s.obj {
        status = record s.obj.status {
          conditions = mark subnets_ready (mark vpc_ready s.obj.status.conditions);
        };
      };
    }

module _ {W C : Type 0} (env : Env W C) (cluster : Cluster) (svc : Service W) where
  vpc-skip :
      (s : State W (Call C) (ControlPlane C))
      → (s.obj.spec.network.vpc_id == "") ≡ false
      → reconcile_vpc env cluster svc s ≡ (ret tt, s)
  unfolding reconcile_vpc ◌>>=◌
  vpc-skip s h = rw h

  subnets-skip :
      (s : State W (Call C) (ControlPlane C))
      → (s.obj.spec.network.subnet_id == "") ≡ false
      → reconcile_subnets env cluster svc s ≡ (ret tt, s)
  unfolding reconcile_subnets ◌>>=◌
  subnets-skip s h = rw h

  -- Where the spec has a VPC id and a subnet id, ReconcileNetwork returns without an error, calls
  -- nothing, and changes the object in the conditions VpcReady and SubnetsReady alone, both marked true.
  pub network-idempotent :
      (s : State W (Call C) (ControlPlane C))
      → (s.obj.spec.network.vpc_id == "") ≡ false
      → (s.obj.spec.network.subnet_id == "") ≡ false
      → reconcile_network env cluster svc s ≡ (ret tt, marked env s)
  unfolding reconcile_network ◌>>=◌ catch mark_true set_conditions
  network-idempotent s hv hs = rw (vpc-skip s hv) (rw (subnets-skip _ hs))
