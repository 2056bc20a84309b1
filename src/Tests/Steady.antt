-- ===== src/Tests/Steady.antt =====
-- The theorem on an available cluster at a concrete input.
use cluster_api_provider_cce.Prelude.{ℕ, ◌≡◌, refl, true, false, some, [], ◌∷◌, map, lookup, ◌==◌}
use cluster_api_provider_cce.Errors.{other}
use cluster_api_provider_cce.Go.{State, ret}
use cluster_api_provider_cce.Call.{Call}
use cluster_api_provider_cce.Sdk.{ClusterStatus}
use cluster_api_provider_cce.Service.{Service}
use cluster_api_provider_cce.Api.ControlPlane.{
  ControlPlane, EndpointAccess, infra_cluster_id, label_or_empty, control_plane_ready,
}
use cluster_api_provider_cce.Kubeconfig.Progress.{Certifies}
use cluster_api_provider_cce.Cluster.Reconcile.{reconcile_control_plane}
use cluster_api_provider_cce.Cluster.Reconcile.Endpoint.{to_endpoint}
use cluster_api_provider_cce.Cluster.Reconcile.Steady.{available-served}
use cluster_api_provider_cce.Tests.World.{Marks}
use cluster_api_provider_cce.Tests.Cloud.{env, svc, cce, answer, phase_status}
use cluster_api_provider_cce.Tests.Objects.{cluster, control_plane}
use cluster_api_provider_cce.Tests.Runs.{endpoints, external_parses, internal_parses}

abbrev available : ClusterStatus
available = record (phase_status "Available") { endpoints = some (map to_endpoint endpoints) }

abbrev steady_svc : Service ℕ
steady_svc = record svc {
  cce = record cce {
    show_cluster = λ id. answer (record { status = some available });
    create_cert = λ id days. answer (
        some (
          some (record { client_certificate_data = some "cert"; client_key_data = some "key" })
          ∷ []));
  };
}

abbrev closed : EndpointAccess
closed = record { is_public = some false }

abbrev on_closed : State ℕ (Call Marks) (ControlPlane Marks)
on_closed =
    let cp = control_plane "cce-1" "vpc-1" "subnet-1" in
    record {
      world = 0;
      obj = record cp { spec = record cp.spec { endpoint_access = some closed } };
      trace = [];
    }

closed_id : (infra_cluster_id on_closed.obj == "") ≡ false
unfolding infra_cluster_id label_or_empty lookup
closed_id = refl

certifies : Certifies env cluster steady_svc (infra_cluster_id on_closed.obj)
certifies = record {
  missing = other "not found";
  certificate = "cert";
  key = "key";
  cert_data = "cert";
  key_data = "key";
  is_missing = λ w. refl;
  is_not_found = refl;
  certifies = λ w. refl;
  decodes_certificate = refl;
  decodes_key = refl;
  writes = λ config. (config.current_context, refl);
  stores = λ key text w. refl;
}

available-served_example :
    let (r, t) = reconcile_control_plane env cluster steady_svc on_closed in
    (r ≡ ret tt)
    × ((t.obj.status.ready ≡ true)
        × ((t.obj.status.initialized ≡ true)
            × ((env.conditions.is_true control_plane_ready t.obj.status.conditions ≡ true)
                × (t.obj.spec.control_plane_endpoint
                    ≡ (record { host = "1.2.3.4"; port = 5443 })))))
available-served_example =
    available-served env cluster steady_svc available endpoints closed refl
      (external_parses, (internal_parses, tt)) refl refl (λ cp w. refl) on_closed closed_id refl
      (λ w. refl) certifies
