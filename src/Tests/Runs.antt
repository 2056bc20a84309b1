-- ===== src/Tests/Runs.antt =====
-- The theorems at concrete inputs.
use cluster_api_provider_cce.Prelude.{
  ℕ, ◌≡◌, refl, sym, true, some, List, [], ◌∷◌, map, lookup, insert,
}
use cluster_api_provider_cce.Errors.{ok}
use cluster_api_provider_cce.Go.{State, ret, ◌>>=◌}
use cluster_api_provider_cce.Go.Within.{Within}
use cluster_api_provider_cce.Call.{Call}
use cluster_api_provider_cce.Api.ControlPlane.{ControlPlane, infra_cluster_id}
use cluster_api_provider_cce.Scope.ControlPlane.{
  mark_true, mark_false, set_conditions, patch_object,
}
use cluster_api_provider_cce.Service.Address.{codes, atoi, atoi_codes, digits_value, parse_url}
use cluster_api_provider_cce.Service.Address.Port.{port_of, parse_url-port}
use cluster_api_provider_cce.Env.{Url}
use cluster_api_provider_cce.Service.Wait.{wait_until, poll_interval}
use cluster_api_provider_cce.Service.Wait.Polls.{Ends, wait_until-Ends}
use cluster_api_provider_cce.Network.{
  reconcile_network, reconcile_vpc, create_vpc, generate_name, with_vpc_id, reconcile_subnets,
  create_subnet,
}
use cluster_api_provider_cce.Network.Laws.{marked}
use cluster_api_provider_cce.Network.Settled.{GivesIds, network-settles}
use cluster_api_provider_cce.Network.Safety.{but_network, NetworkCall, network-Within}
use cluster_api_provider_cce.Cluster.Delete.{delete_control_plane, poll_deleted}
use cluster_api_provider_cce.Cluster.Delete.Safety.{DeletesCluster, delete-Within}
use cluster_api_provider_cce.Cluster.Status.{set_status}
use cluster_api_provider_cce.Cluster.Status.Laws.{Phase, set_status-ready}
use cluster_api_provider_cce.Cluster.Reconcile.{choose_endpoint}
use cluster_api_provider_cce.Cluster.Reconcile.Endpoint.{
  FullEndpoint, to_endpoint, at_endpoint, choose_endpoint-latest,
}
use cluster_api_provider_cce.Tests.World.{Marks}
use cluster_api_provider_cce.Tests.Cloud.{env, svc, phase_status, internal_url, external_url}
use cluster_api_provider_cce.Tests.Objects.{cluster, on_control_plane}

abbrev at_work : State ℕ (Call Marks) (ControlPlane Marks)
at_work = on_control_plane "cce-1" "vpc-1" "subnet-1"

abbrev fresh : State ℕ (Call Marks) (ControlPlane Marks)
fresh = on_control_plane "" "" ""

delete-Within_example :
    Within
      (λ o. o ≡ at_work.obj)
      (DeletesCluster (infra_cluster_id at_work.obj))
      []
      (delete_control_plane env cluster svc at_work).1
delete-Within_example = delete-Within env cluster svc at_work

wait_until-Ends_example :
    Ends
      (poll_deleted env cluster svc "cce-1")
      poll_interval
      at_work
      40
      (wait_until (poll_deleted env cluster svc "cce-1") poll_interval 40 at_work)
wait_until-Ends_example =
    wait_until-Ends (poll_deleted env cluster svc "cce-1") poll_interval 40 at_work

set_status-ready_example :
    (set_status env (some (phase_status "Upgrading")) at_work).1.obj.status.ready ≡ true
set_status-ready_example =
    set_status-ready env at_work (phase_status "Upgrading") Phase.upgrading refl

given_ids : GivesIds svc
given_ids = record {
  of_vpc = λ r w id e. let p : "vpc-1" ≡ id = cc in rw (sym p) refl;
  of_subnet = λ r w id e. let p : "subnet-1" ≡ id = cc in rw (sym p) refl;
  of_list = λ vpc_id w id ids e. cc;
}

network_returns : (reconcile_network env cluster svc fresh).0 ≡ ret tt
unfolding reconcile_network reconcile_vpc create_vpc generate_name with_vpc_id reconcile_subnets
    create_subnet mark_true mark_false set_conditions patch_object lookup insert ◌>>=◌
network_returns = refl

network-settles_example :
    reconcile_network env cluster svc (reconcile_network env cluster svc fresh).1
    ≡ (ret tt, marked env (reconcile_network env cluster svc fresh).1)
network-settles_example = network-settles env cluster svc given_ids fresh network_returns

network-Within_example :
    Within
      (λ o. but_network fresh.obj o ≡ fresh.obj)
      (NetworkCall fresh.obj)
      []
      (reconcile_network env cluster svc fresh).1
network-Within_example = network-Within env cluster svc fresh

abbrev pub endpoints : List FullEndpoint
endpoints =
    record { kind = "External"; url = external_url; host = "1.2.3.4"; port = 5443 }
    ∷ (record { kind = "Internal"; url = internal_url; host = "192.168.0.5"; port = 5443 } ∷ [])

pub external_parses : parse_url env.formats.url_parse external_url ≡ ok ("1.2.3.4", 5443)
unfolding parse_url atoi atoi_codes digits_value
external_parses = refl

pub internal_parses : parse_url env.formats.url_parse internal_url ≡ ok ("192.168.0.5", 5443)
unfolding parse_url atoi atoi_codes digits_value
internal_parses = refl

choose_endpoint-latest_example :
    choose_endpoint env (some (map to_endpoint endpoints)) at_work
    ≡ (ret tt, at_endpoint env (record { host = "1.2.3.4"; port = 5443 }) at_work)
choose_endpoint-latest_example =
    choose_endpoint-latest env endpoints at_work (external_parses, (internal_parses, tt))

abbrev external : Url
external = record { hostname = "1.2.3.4"; port = "5443" }

parse_url-port_example :
    parse_url env.formats.url_parse external_url ≡ port_of "1.2.3.4" (codes "5443")
parse_url-port_example =
    parse_url-port env.formats.url_parse external_url external refl
      (refl, (refl, (refl, (refl, tt))))
