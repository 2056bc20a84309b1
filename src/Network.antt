-- ===== src/Network.antt =====
-- pkg/cloud/services/cce/vpc.go, subnets.go and network.go, with pkg/util.
pub mod Frame
pub mod Laws
pub mod Settled
pub mod Safety
pub mod Order
use cluster_api_provider_cce.Prelude.{String, ◌<>◌, Bool, true, false, Option, List, [], ◌∷◌, ◌==◌}
use cluster_api_provider_cce.Errors.{Error, service_response, wrapped}
use cluster_api_provider_cce.Go.{
  if◌then◌else◌, pure, raise, crash, get_obj, modify, deref, call, sample, catch, wrap, when,
  unless, ◌>>=◌, ◌>>◌,
}
use cluster_api_provider_cce.Env.{Env, Severity}
use cluster_api_provider_cce.Call.{Call, CpM}
use cluster_api_provider_cce.Sdk.{CreateVpcRequest, CreateSubnetRequest}
use cluster_api_provider_cce.Api.Meta.{Cluster}
use cluster_api_provider_cce.Api.ControlPlane.{
  ControlPlane, vpc_ready, vpc_creation_started, vpc_reconciliation_failed, subnets_ready,
  subnets_reconciliation_failed,
}
use cluster_api_provider_cce.Scope.ControlPlane.{project, patch_object, mark_true, mark_false}
use cluster_api_provider_cce.Service.{Service}

abbrev pub default_vpc_cidr : String
default_vpc_cidr = "192.168.0.0/16"

abbrev pub default_subnet_cidr : String
default_subnet_cidr = "192.168.0.0/24"

abbrev pub default_subnet_ip : String
default_subnet_ip = "192.168.0.1"

-- conditions.ControlPlaneInitializedCondition, of cluster-api
abbrev pub control_plane_initialized : String
control_plane_initialized = "ControlPlaneInitialized"

module _ {C : Type 0} where
  unfoldable pub with_vpc_id : String → ControlPlane C → ControlPlane C
  with_vpc_id id cp = record cp {
    spec = record cp.spec { network = record cp.spec.network { vpc_id = id } };
  }

  unfoldable pub with_subnet_id : String → ControlPlane C → ControlPlane C
  with_subnet_id id cp = record cp {
    spec = record cp.spec { network = record cp.spec.network { subnet_id = id } };
  }

-- An initialised control plane makes its failures errors.
unfoldable pub severity_after_init : Bool → Severity
severity_after_init true = Severity.error
severity_after_init false = Severity.warning

module _ {W C : Type 0} (env : Env W C) where
  -- pkg/util/strings/helper.go
  unfoldable pub generate_name : String → CpM W C String
  generate_name base_name = do random ← sample (env.random_string 5); pure (base_name <> random)

  -- pkg/util/conditions/helper.go
  unfoldable pub error_condition_after_init : CpM W C Severity
  error_condition_after_init = do
    cp ← get_obj
    pure (
        severity_after_init (env.conditions.is_true control_plane_initialized cp.status.conditions))

module _ {W C : Type 0} (env : Env W C) (cluster : Cluster) (svc : Service W) where
  unfoldable pub create_vpc : CpM W C String
  create_vpc = do
    name ← generate_name env ("vpc-" <> cluster.meta.name <> "-")
    cp ← get_obj
    let request : CreateVpcRequest = record {
      name = name;
      cidr = default_vpc_cidr;
      enterprise_project_id = project cp;
      tags = "self-built*true" ∷ [];
    }
    vpc ← wrap "failed to create vpc" (call (Call.create_vpc request) (svc.vpc.create_vpc request))
    deref vpc

  unfoldable pub reconcile_vpc : CpM W C (Unit {0})
  reconcile_vpc = do
    cp ← get_obj
    when (cp.spec.network.vpc_id == "") (do
      unless (env.conditions.has vpc_ready cp.status.conditions) (do
        mark_false env vpc_ready vpc_creation_started Severity.info ""
        wrap "failed to patch conditions" (patch_object env))
      id ← wrap "failed to create new vpc" create_vpc
      modify (with_vpc_id id))

  unfoldable pub list_subnets : String → CpM W C (Option (List String))
  list_subnets vpc_id =
      wrap "failed to list subnets" (call (Call.list_subnets vpc_id) (svc.vpc.list_subnets vpc_id))

  -- `subnets[0].Id`
  unfoldable pub first_subnet : List String → CpM W C String
  first_subnet [] = crash
  first_subnet (id ∷ ids) = pure id

  -- The error path of `CreateSubnet`: a subnet that is there already is adopted.
  unfoldable pub subnet_exists : Error → Bool
  subnet_exists (service_response status code) = code == "VPC.0204"
  subnet_exists _ = false

  unfoldable pub adopt_subnet : String → Error → CpM W C String
  adopt_subnet vpc_id e =
      if subnet_exists e
      then (do response ← list_subnets vpc_id; subnets ← deref response; first_subnet subnets)
      else raise (wrapped "failed to create subnet" e)

  unfoldable pub create_subnet : CpM W C String
  create_subnet = do
    name ← generate_name env ("subnet-" <> cluster.meta.name <> "-")
    cp ← get_obj
    let vpc_id = cp.spec.network.vpc_id
    let request : CreateSubnetRequest = record {
      name = name;
      cidr = default_subnet_cidr;
      vpc_id = vpc_id;
      gateway_ip = default_subnet_ip;
      tags = "self-built*true" ∷ [];
    }
    catch
        (do
          subnet ← call (Call.create_subnet request) (svc.vpc.create_subnet request)
          deref subnet)
        (adopt_subnet vpc_id)

  unfoldable pub reconcile_subnets : CpM W C (Unit {0})
  reconcile_subnets = do
    cp ← get_obj
    when (cp.spec.network.subnet_id == "") (do
      unless (env.conditions.has vpc_ready cp.status.conditions) (do
        mark_false env subnets_ready subnets_reconciliation_failed Severity.info ""
        wrap "failed to patch conditions" (patch_object env))
      id ← wrap "failed to create new subnet" create_subnet
      modify (with_subnet_id id))

  -- A failed part of the network: the condition is marked, and the error returned.
  unfoldable pub network_failed : String → String → Error → CpM W C (Unit {0})
  network_failed condition reason e = do
    severity ← error_condition_after_init env
    mark_false env condition reason severity (env.formats.error_text e)
    raise e

  unfoldable pub reconcile_network : CpM W C (Unit {0})
  reconcile_network = do
    catch (reconcile_vpc) (network_failed vpc_ready vpc_reconciliation_failed)
    mark_true env vpc_ready
    catch (reconcile_subnets) (network_failed subnets_ready subnets_reconciliation_failed)
    mark_true env subnets_ready

  unfoldable pub delete_network : CpM W C (Unit {0})
  delete_network = pure tt
