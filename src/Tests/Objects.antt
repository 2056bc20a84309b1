-- ===== src/Tests/Objects.antt =====
-- The objects and the states of the tests.
use cluster_api_provider_cce.Prelude.{ℕ, String, true, false, none, some, List, [], ◌∷◌}
use cluster_api_provider_cce.Go.{State}
use cluster_api_provider_cce.Call.{Call}
use cluster_api_provider_cce.Api.Meta.{ObjectMeta, Cluster, MachinePool, ClusterNetwork}
use cluster_api_provider_cce.Api.ControlPlane.{
  ControlPlane, infra_cluster_id_label, managed_control_plane_finalizer,
}
use cluster_api_provider_cce.Api.MachinePool.{ManagedMachinePool}
use cluster_api_provider_cce.Api.ManagedCluster.{ManagedCluster}
use cluster_api_provider_cce.Tests.World.{Marks}

abbrev pub meta : List (String × String) → ObjectMeta
meta labels = record {
  name = "demo";
  namespace = "default";
  labels = some labels;
  finalizers = managed_control_plane_finalizer ∷ [];
  deleted = false;
  owner_references = [];
}

abbrev pub network : ClusterNetwork
network = record { services = none; pods = none }

abbrev pub cluster : Cluster
cluster = record {
  meta = meta [];
  cluster_network = some network;
  control_plane_ref = none;
  infrastructure_ref = none;
  infrastructure_ready = true;
}

-- A control plane of a cluster id, a VPC and a subnet.
abbrev pub control_plane : String → String → String → ControlPlane Marks
control_plane id vpc subnet = record {
  meta = meta ((infra_cluster_id_label, id) ∷ []);
  spec = record {
    identity_ref = some (record { kind = "Secret"; namespace = "default"; name = "credentials" });
    project = none;
    region = "cn-east-3";
    version = some "v1.28";
    flavor = none;
    network = record { mode = none; vpc_id = vpc; subnet_id = subnet };
    endpoint_access = none;
    control_plane_endpoint = record { host = ""; port = 0 };
  };
  status = record {
    network = record { eip_id = "" };
    external_managed_control_plane = none;
    initialized = false;
    ready = false;
    failure_message = none;
    conditions = [];
  };
}

abbrev pub on_control_plane : String → String → String → State ℕ (Call Marks) (ControlPlane Marks)
on_control_plane id vpc subnet = record { world = 0; obj = control_plane id vpc subnet; trace = [] }

abbrev pub machine_pool : MachinePool
machine_pool = record {
  meta = meta [];
  infrastructure_group = "infrastructure.cluster.x-k8s.io";
  infrastructure_kind = "CCEManagedMachinePool";
  infrastructure_name = "demo";
}

abbrev pub pool : ManagedMachinePool Marks
pool = record {
  meta = meta [];
  spec = record {
    replicas = some 3;
    flavor = none;
    runtime = none;
    ssh_key_name = none;
    root_volume = none;
    data_volumes = [];
    labels = [];
    taints = none;
    subnet = none;
    provider_id_list = [];
  };
  status = record {
    ready = true;
    replicas = 0;
    failure_reason = none;
    failure_message = none;
    conditions = [];
  };
}

abbrev pub on_pool : State ℕ (Call Marks) (ManagedMachinePool Marks)
on_pool = record { world = 0; obj = pool; trace = [] }

abbrev pub on_managed_cluster : State ℕ (Call Marks) ManagedCluster
on_managed_cluster = record {
  world = 0;
  obj = record {
    meta = meta [];
    control_plane_endpoint = record { host = ""; port = 0 };
    ready = false;
    failure_domains = [];
  };
  trace = [];
}
