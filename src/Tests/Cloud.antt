-- ===== src/Tests/Cloud.antt =====
-- An environment and clients that answer by the number of calls so far, the world's state.
use cluster_api_provider_cce.Prelude.{
  ℕ, suc, String, true, false, Option, none, some, [], ◌∷◌, ◌==◌, ltb, if◌then◌else◌,
}
use cluster_api_provider_cce.Errors.{Error, service_response, other, Result, ok, err}
use cluster_api_provider_cce.Env.{Kube, Url, Formats, Env}
use cluster_api_provider_cce.Sdk.{
  CceClient, Enums, ClusterStatus, ShowClusterResponse, CreateClusterResponse,
}
use cluster_api_provider_cce.Service.{Service}
use cluster_api_provider_cce.Tests.World.{Marks, marks, finalizer_list}

abbrev pub answer : {A : Type 0} → A → ℕ → Result A × ℕ
answer a w = (ok a, suc w)

abbrev pub refuse : {A : Type 0} → Error → ℕ → Result A × ℕ
refuse e w = (err e, suc w)

abbrev pub phase_status : String → ClusterStatus
phase_status phase = record {
  phase = some phase;
  reason = some "reason";
  message = some "message";
  endpoints = none;
}

-- A cluster in deletion that is gone after the fourth call.
abbrev pub shown_cluster : ℕ → Result ShowClusterResponse × ℕ
shown_cluster w =
    if ltb w 4
    then answer (record { status = some (phase_status "Deleting") }) w
    else refuse (service_response 404 "CCE.01404001") w

abbrev pub created : CreateClusterResponse
created = record { metadata = some (some "cce-1"); status = some (phase_status "Creating") }

-- Only the cluster "public" has a public endpoint.
abbrev pub shown_endpoint : String → Option String
shown_endpoint id = if id == "public" then some "https://1.2.3.4:5443" else none

abbrev pub cce : CceClient ℕ
cce = record {
  show_cluster = λ id. shown_cluster;
  create_cluster = λ r. answer created;
  delete_cluster = λ id. answer tt;
  show_cluster_endpoints = λ id. answer (some (shown_endpoint id));
  update_cluster_eip = λ id action eip. refuse (service_response 409 "CCE.01409001");
  create_cert = λ id days. answer none;
  show_node_pool = λ id pool. refuse (service_response 404 "CCE.01404001");
  create_node_pool = λ r. refuse (other "no capacity");
  delete_node_pool = λ id pool. answer tt;
  list_nodes = λ id. answer (some []);
}

abbrev pub svc : Service ℕ
svc = record {
  cce = cce;
  eip = record { create_publicip = λ r. answer (some (some "eip-1")) };
  vpc = record {
    create_vpc = λ r. answer (some "vpc-1");
    create_subnet = λ r. answer (some "subnet-1");
    list_subnets = λ id. answer (some []);
  };
}

abbrev pub enums : Enums
enums = record {
  vpc_router = "vpc-router";
  overlay_l2 = "overlay_l2";
  docker = "docker";
  containerd = "containerd";
  no_schedule = "NoSchedule";
  prefer_no_schedule = "PreferNoSchedule";
  no_execute = "NoExecute";
  vm = "vm";
  bind = "bind";
  traffic = "traffic";
  per = "PER";
  synchronizing = "Synchronizing";
  synchronized = "Synchronized";
  deleting = "Deleting";
  error = "Error";
  sold_out = "SoldOut";
}

abbrev pub internal_url : String
internal_url = "https://192.168.0.5:5443"

abbrev pub external_url : String
external_url = "https://1.2.3.4:5443"

abbrev pub parsed_url : String → Result Url
parsed_url u =
    if u == internal_url
    then ok (record { hostname = "192.168.0.5"; port = "5443" })
    else if u == external_url
    then ok (record { hostname = "1.2.3.4"; port = "5443" })
    else err (other "missing protocol scheme")

abbrev pub formats : Formats
formats = record {
  error_text = λ e. "error";
  endpoint_string = λ e. e.host;
  endpoint_is_zero = λ e. e.host == "";
  ranges_string = λ l. "10.1.0.0/16";
  url_parse = parsed_url;
  base64_decode = λ s. ok s;
  config_load = λ s. err (other "yaml");
  config_write = λ c. ok c.current_context;
}

abbrev pub kube : Kube ℕ Marks
kube = record {
  get_secret = λ key. answer (("accessKey", "ak") ∷ (("secretKey", "sk") ∷ []));
  get_kubeconfig_secret = λ key. refuse (other "not found");
  create_kubeconfig_secret = λ key text. answer tt;
  update_secret = λ secret. answer tt;
  is_not_found = λ e. true;
  patch_control_plane = λ cp. answer tt;
  patch_machine_pool = λ pool. answer tt;
  patch_managed_cluster = λ c. answer tt;
  new_control_plane_helper = λ cp. answer tt;
  new_machine_pool_helper = λ pool. answer tt;
  new_capi_machine_pool_helper = λ pool. answer tt;
  new_managed_cluster_helper = λ c. answer tt;
  get_control_plane = λ key. refuse (other "not found");
  get_managed_machine_pool = λ key. refuse (other "not found");
  get_managed_cluster = λ key. refuse (other "not found");
  get_machine_pool = λ key. refuse (other "not found");
  get_owner_cluster = λ meta. answer none;
  get_cluster_from_metadata = λ meta. refuse (other "not found");
  list_managed_machine_pools = λ namespace name. answer [];
  list_machine_pools = λ namespace name. answer [];
  is_paused = λ cluster meta. false;
  parse_group_version =
      λ v. if v == "cluster.x-k8s.io/v1beta1" then ok "cluster.x-k8s.io" else err (other "version");
}

abbrev pub env : Env ℕ Marks
env = record {
  conditions = marks;
  finalizers = finalizer_list;
  kube = kube;
  formats = formats;
  enums = enums;
  random_string = λ n w. ("abcde", suc w);
  new_cce_client = λ region ak sk w. (some svc.cce, w);
  new_eip_client = λ region ak sk w. (some svc.eip, w);
  new_vpc_client = λ region ak sk w. (some svc.vpc, w);
}
