-- ===== src/Eip/Laws.antt =====
-- What reconcileEIP calls.
use cluster_api_provider_cce.Prelude.{String, ◌≡◌, refl, true, false, Option, some, ◌∷◌}
use cluster_api_provider_cce.Errors.{Error, Result, ok, err, wrapped}
use cluster_api_provider_cce.Go.{State, ret, fail, ◌>>=◌, deref, wrap}
use cluster_api_provider_cce.Env.{Env}
use cluster_api_provider_cce.Call.{Call}
use cluster_api_provider_cce.Api.ControlPlane.{ControlPlane, infra_cluster_id}
use cluster_api_provider_cce.Scope.ControlPlane.{scope_infra_cluster_id}
use cluster_api_provider_cce.Service.{Service}
use cluster_api_provider_cce.Eip.{
  has_public_endpoint, publicip_request, create_and_bind_eip, reconcile_eip, with_eip_id,
}

module _ {W C : Type 0} (env : Env W C) (svc : Service W)
    (s : State W (Call C) (ControlPlane C)) where
  abbrev pub shown : Result (Option (Option String)) × W
  shown = svc.cce.show_cluster_endpoints (infra_cluster_id s.obj) s.world

  -- A cluster with a public endpoint is left alone.
  pub eip-bound :
      (endpoint : Option String)
      → shown.0 ≡ ok (some endpoint)
      → has_public_endpoint endpoint ≡ true
      → reconcile_eip env svc s ≡ (
        ret tt,
        record {
          world = shown.1;
          obj = s.obj;
          trace = Call.show_cluster_endpoints (infra_cluster_id s.obj) ∷ s.trace;
        },
      )
  unfolding reconcile_eip scope_infra_cluster_id ◌>>=◌
  eip-bound endpoint e h = rw (e, deref, wrap, h) refl

  -- Where the cluster has no public endpoint, an address is created and its binding fails, reconcileEIP
  -- fails with the wrapped error; its only calls are the look at the endpoints, the creation and the
  -- binding, and the object differs in the id of the new address alone.
  pub eip-leak :
      (endpoint : Option String) (id : String) (w w' w'' : W) (e : Error)
      → shown ≡ (ok (some endpoint), w)
      → has_public_endpoint endpoint ≡ false
      → svc.eip.create_publicip (publicip_request env svc s.obj) w ≡ (ok (some (some id)), w')
      → svc.cce.update_cluster_eip (infra_cluster_id s.obj) env.enums.bind (some id) w'
        ≡ (err e, w'')
      → reconcile_eip env svc s ≡ (
        fail (wrapped "failed to bind EIP" e),
        record {
          world = w'';
          obj = with_eip_id id s.obj;
          trace =
              Call.update_cluster_eip (infra_cluster_id s.obj) env.enums.bind (some id)
              ∷ (Call.create_publicip (publicip_request env svc s.obj)
                  ∷ (Call.show_cluster_endpoints (infra_cluster_id s.obj) ∷ s.trace));
        },
      )
  unfolding reconcile_eip create_and_bind_eip scope_infra_cluster_id with_eip_id ◌>>=◌
      infra_cluster_id publicip_request
  eip-leak endpoint id w w' w'' e h n c b = rw (h, deref, wrap, n, c, b) refl
