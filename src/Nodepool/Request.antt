-- ===== src/Nodepool/Request.antt =====
-- createNodepool of pkg/cloud/services/cce/nodepool.go: what is asked of CCE, with
-- toTaintEffect and toRuntimeName.
use cluster_api_provider_cce.Prelude.{String, false, ◌==◌, if◌then◌else◌, get_or, map}
use cluster_api_provider_cce.Env.{Env}
use cluster_api_provider_cce.Sdk.{Enums, SdkVolume, CreateNodePoolRequest}
use cluster_api_provider_cce.Api.MachinePool.{Volume, ManagedMachinePool}

abbrev pub default_os_node : String
default_os_node = "Huawei Cloud EulerOS 2.0"

abbrev pub default_volumetype : String
default_volumetype = "GPSSD"

abbrev pub default_runtime : String
default_runtime = "containerd"

unfoldable pub to_taint_effect : Enums → String → String
to_taint_effect enums effect =
    if effect == "NoSchedule"
    then enums.no_schedule
    else if effect == "PreferNoSchedule"
    then enums.prefer_no_schedule
    else if effect == "NoExecute"
    then enums.no_execute
    else enums.no_schedule

unfoldable pub to_runtime_name : Enums → String → String
to_runtime_name enums runtime = if runtime == enums.docker then enums.docker else enums.containerd

-- The type of a volume is always the default one.
unfoldable pub to_volume : Volume → SdkVolume
to_volume d = record { size = d.size; volumetype = default_volumetype }

module _ {W C : Type 0} (env : Env W C) where
  -- `root_volume` and `subnet_id` are what the spec's pointers point to.
  unfoldable pub nodepool_request :
      String → ManagedMachinePool C → Volume → String → CreateNodePoolRequest
  nodepool_request cluster_id pool root_volume subnet_id = record {
    cluster_id = cluster_id;
    api_version = "v3";
    kind = "NodePool";
    name = pool.meta.name;
    pool_type = env.enums.vm;
    flavor = get_or "c6s.4xlarge.2" pool.spec.flavor;
    az = "random";
    os = default_os_node;
    ssh_key = pool.spec.ssh_key_name;
    root_volume = to_volume root_volume;
    data_volumes = map to_volume pool.spec.data_volumes;
    subnet_id = subnet_id;
    runtime = to_runtime_name env.enums (get_or default_runtime pool.spec.runtime);
    initial_node_count = pool.spec.replicas;
    autoscaling = false;
  }
