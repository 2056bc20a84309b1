-- ===== src/Cluster/Reconcile/Endpoint.antt =====
-- The endpoint that the two loops of reconcileCluster leave in the spec.
use cluster_api_provider_cce.Prelude.{
  ℕ, ◌%◌, ◌^◌, String, ◌≡◌, refl, ◌∙◌, some, List, [], ◌∷◌, ◌==◌, map, if◌then◌else◌, Bool-cases,
  inl, inr,
}
use cluster_api_provider_cce.Errors.{ok}
use cluster_api_provider_cce.Go.{State, ret, deref, ◌>>=◌}
use cluster_api_provider_cce.Env.{Env}
use cluster_api_provider_cce.Call.{Call}
use cluster_api_provider_cce.Sdk.{ClusterEndpoint}
use cluster_api_provider_cce.Api.Meta.{ApiEndpoint}
use cluster_api_provider_cce.Api.ControlPlane.{ControlPlane}
use cluster_api_provider_cce.Service.Address.{parse_url}
use cluster_api_provider_cce.Kubeconfig.{lift}
use cluster_api_provider_cce.Cluster.Reconcile.{
  with_endpoint, set_endpoint, set_endpoints, choose_endpoint,
}

-- An endpoint of which the kind and the URL are there, with the address that the URL names.
pub record FullEndpoint : Type 0 where
  pub kind : String
  pub url : String
  pub host : String
  pub port : ℕ

abbrev pub to_endpoint : FullEndpoint → ClusterEndpoint
to_endpoint e = record { url = some e.url; endpoint_type = some e.kind }

abbrev pub api_endpoint : FullEndpoint → ApiEndpoint
api_endpoint e = record { host = e.host; port = e.port % 2 ^ 32 }

-- The last endpoint of the kind, or `old` where there is none.
abbrev pub latest : String → ApiEndpoint → List FullEndpoint → ApiEndpoint
latest kind old [] = old
latest kind old (e ∷ es) = latest kind (if e.kind == kind then api_endpoint e else old) es

-- Each URL parses to its address.
abbrev pub Parses : {W C : Type 0} → Env W C → List FullEndpoint → Type 0
Parses env [] = Unit {0}
Parses env (e ∷ es) = (parse_url env.formats.url_parse e.url ≡ ok (e.host, e.port)) × Parses env es

module _ {W C : Type 0} (env : Env W C) where
  abbrev pub at_endpoint :
      ApiEndpoint → State W (Call C) (ControlPlane C) → State W (Call C) (ControlPlane C)
  at_endpoint endpoint s = record s { obj = with_endpoint endpoint s.obj }

  step :
      (kind : String) (e : FullEndpoint) (es : List FullEndpoint)
      (s : State W (Call C) (ControlPlane C))
      → parse_url env.formats.url_parse e.url ≡ ok (e.host, e.port)
      → set_endpoints env kind (map to_endpoint (e ∷ es)) s
        ≡ set_endpoints env kind (map to_endpoint es) (
            at_endpoint
              (if e.kind == kind then api_endpoint e else s.obj.spec.control_plane_endpoint)
              s)
  unfolding set_endpoints set_endpoint lift with_endpoint ◌>>=◌
  step kind e es s p = elim (Bool-cases (e.kind == kind)) [
    | inl k ↦ rw (k, deref, p) refl
    | inr k ↦ rw k refl
  ]

  set_endpoints-latest :
      (kind : String) (es : List FullEndpoint) (s : State W (Call C) (ControlPlane C))
      → Parses env es
      → set_endpoints env kind (map to_endpoint es) s
        ≡ (ret tt, at_endpoint (latest kind s.obj.spec.control_plane_endpoint es) s)
  unfolding set_endpoints with_endpoint ◌>>=◌
  set_endpoints-latest kind [] s p = refl
  set_endpoints-latest kind (e ∷ es) s (p, ps) =
      step kind e es s p ∙ set_endpoints-latest kind es _ ps

  -- Where each endpoint of the list has its kind and a URL that parses, the two loops succeed and
  -- change the control plane's endpoint alone: to the last external one, to the last internal one where
  -- there is no external one, and not at all where there is neither.
  pub choose_endpoint-latest :
      (es : List FullEndpoint) (s : State W (Call C) (ControlPlane C))
      → Parses env es
      → choose_endpoint env (some (map to_endpoint es)) s ≡ (
        ret tt,
        at_endpoint
            (latest "External" (latest "Internal" s.obj.spec.control_plane_endpoint es) es)
            s,
      )
  unfolding choose_endpoint with_endpoint ◌>>=◌
  choose_endpoint-latest es s p =
      rw (set_endpoints-latest "Internal" es s p) (set_endpoints-latest "External" es _ p)
