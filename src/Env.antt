-- ===== src/Env.antt =====
-- What the code relies on outside this repository: the Kubernetes client with the Cluster API's
-- helpers, the conditions and finalizers packages, the SDK's client constructors, and the libraries
-- for text formats. Each is a parameter; its laws state documented behaviour.
use cluster_api_provider_cce.Prelude.{ℕ, String, ◌≡◌, ◌≢◌, Bool, true, false, Option, List}
use cluster_api_provider_cce.Errors.{Error, Result}
use cluster_api_provider_cce.Api.Meta.{
  ObjectMeta, NamespacedName, ApiEndpoint, Cluster, MachinePool,
}
use cluster_api_provider_cce.Api.ControlPlane.{ControlPlane}
use cluster_api_provider_cce.Api.MachinePool.{ManagedMachinePool}
use cluster_api_provider_cce.Api.ManagedCluster.{ManagedCluster}
use cluster_api_provider_cce.Sdk.{CceClient, EipClient, VpcClient, Enums}

pub data Severity : Type 0 where
  error warning info : Severity

-- sigs.k8s.io/cluster-api/util/conditions: the operations on an object's conditions, by type. A type
-- has one condition at most, and marking one type leaves the other types alone.
pub record Conditions (C : Type 0) : Type 0 where
  pub mark_true : String → C → C
  pub mark_false : String → String → Severity → String → C → C
  pub is_true : String → C → Bool
  pub has : String → C → Bool
  pub set_summary : List String → C → C
  pub is_true-mark_true_self : (t : String) (c : C) → is_true t (mark_true t c) ≡ true
  pub is_true-mark_true_ne :
      (t u : String) (c : C) → t ≢ u → is_true u (mark_true t c) ≡ is_true u c
  pub is_true-mark_false_self :
      (t r : String) (s : Severity) (m : String) (c : C) → is_true t (mark_false t r s m c) ≡ false
  pub is_true-mark_false_ne :
      (t u r : String) (s : Severity) (m : String) (c : C)
      → t ≢ u
      → is_true u (mark_false t r s m c) ≡ is_true u c
  pub has-mark_true_self : (t : String) (c : C) → has t (mark_true t c) ≡ true
  pub has-mark_false_self :
      (t r : String) (s : Severity) (m : String) (c : C) → has t (mark_false t r s m c) ≡ true

-- controllerutil.AddFinalizer and RemoveFinalizer, on the list of finalizers.
pub record Finalizers : Type 0 where
  pub add : String → List String → List String × Bool
  pub remove : String → List String → List String
  pub contains : String → List String → Bool
  pub contains-add : (f : String) (l : List String) → contains f (add f l).0 ≡ true
  pub contains-remove : (f : String) (l : List String) → contains f (remove f l) ≡ false

-- The client of controller-runtime, with the Cluster API's functions over it. A secret is its data.
pub record Kube (W C : Type 0) : Type 0 where
  pub get_secret : NamespacedName → W → Result (List (String × String)) × W
  pub get_kubeconfig_secret : NamespacedName → W → Result (List (String × String)) × W
  pub create_kubeconfig_secret : NamespacedName → String → W → Result (Unit {0}) × W
  pub update_secret : List (String × String) → W → Result (Unit {0}) × W
  pub is_not_found : Error → Bool
  pub patch_control_plane : ControlPlane C → W → Result (Unit {0}) × W
  pub patch_machine_pool : ManagedMachinePool C → W → Result (Unit {0}) × W
  pub patch_managed_cluster : ManagedCluster → W → Result (Unit {0}) × W
  pub new_control_plane_helper : ControlPlane C → W → Result (Unit {0}) × W
  pub new_machine_pool_helper : ManagedMachinePool C → W → Result (Unit {0}) × W
  pub new_capi_machine_pool_helper : MachinePool → W → Result (Unit {0}) × W
  pub new_managed_cluster_helper : ManagedCluster → W → Result (Unit {0}) × W
  pub get_control_plane : NamespacedName → W → Result (ControlPlane C) × W
  pub get_managed_machine_pool : NamespacedName → W → Result (ManagedMachinePool C) × W
  pub get_managed_cluster : NamespacedName → W → Result ManagedCluster × W
  pub get_machine_pool : NamespacedName → W → Result MachinePool × W
  pub get_owner_cluster : ObjectMeta → W → Result (Option Cluster) × W
  pub get_cluster_from_metadata : ObjectMeta → W → Result Cluster × W
  pub list_managed_machine_pools : String → String → W → Result (List (ManagedMachinePool C)) × W
  pub list_machine_pools : String → String → W → Result (List MachinePool) × W
  pub is_paused : Cluster → ObjectMeta → Bool
  pub parse_group_version : String → Result String  -- the group

-- clientcmd's api.Config, with the fields that the code writes. A map's values are pointers.
pub record AuthInfo : Type 0 where
  pub client_certificate_data : String
  pub client_key_data : String

pub record ConfigCluster : Type 0 where
  pub server : String
  pub insecure_skip_tls_verify : Bool

pub record ConfigContext : Type 0 where
  pub cluster : String
  pub auth_info : String

pub record KubeConfig : Type 0 where
  pub clusters : List (String × ConfigCluster)
  pub contexts : List (String × ConfigContext)
  pub current_context : String
  pub auth_infos : List (String × Option AuthInfo)

-- The parts of a url.URL that the code reads.
pub record Url : Type 0 where
  pub hostname : String
  pub port : String

pub record Formats : Type 0 where
  pub error_text : Error → String  -- err.Error()
  pub endpoint_string : ApiEndpoint → String  -- APIEndpoint.String
  pub endpoint_is_zero : ApiEndpoint → Bool  -- APIEndpoint.IsZero
  pub ranges_string : List String → String  -- NetworkRanges.String
  pub url_parse : String → Result Url
  pub base64_decode : String → Result String
  pub config_load : String → Result KubeConfig
  pub config_write : KubeConfig → Result String

pub record Env (W C : Type 0) : Type 0 where
  pub conditions : Conditions C
  pub finalizers : Finalizers
  pub kube : Kube W C
  pub formats : Formats
  pub enums : Enums
  pub random_string : ℕ → W → String × W
  -- the clients' builders, of a region, an access key and a secret key; none where they panic, as for an
  -- unknown region
  pub new_cce_client : String → String → String → W → Option (CceClient W) × W
  pub new_eip_client : String → String → String → W → Option (EipClient W) × W
  pub new_vpc_client : String → String → String → W → Option (VpcClient W) × W
