-- ===== src/Network/Frame.antt =====
-- What ReconcileNetwork may touch: any predicate that its edits keep is kept, and its calls are to
-- create a VPC or a subnet, to list the subnets, and to patch the object.
use cluster_api_provider_cce.Prelude.{String, List, [], ◌∷◌}
use cluster_api_provider_cce.Errors.{Error}
use cluster_api_provider_cce.Go.Keeps.{
  Keeps-bind, Keeps-then, Keeps-get_obj, Keeps-when, Keeps-unless, Keeps-wrap,
}
use cluster_api_provider_cce.Go.Within.{Stays, within_rules}
use cluster_api_provider_cce.Env.{Env}
use cluster_api_provider_cce.Call.{Call}
use cluster_api_provider_cce.Sdk.{CreateVpcRequest, CreateSubnetRequest}
use cluster_api_provider_cce.Api.Meta.{Cluster}
use cluster_api_provider_cce.Api.ControlPlane.{ControlPlane}
use cluster_api_provider_cce.Scope.ControlPlane.Frame.{
  with_conditions, mark_false-Stays, patch-Stays, mark_true-Stays,
}
use cluster_api_provider_cce.Service.{Service}
use cluster_api_provider_cce.Network.{
  with_vpc_id, with_subnet_id, generate_name, error_condition_after_init, create_vpc, reconcile_vpc,
  list_subnets, first_subnet, adopt_subnet, create_subnet, reconcile_subnets, network_failed,
  reconcile_network,
}

module _ {W C : Type 0} (env : Env W C) (cluster : Cluster) (svc : Service W)
    (Q : ControlPlane C → Type 0) (allowed : Call C → Type 0) (before : List (Call C))
    (on_conditions : (f : C → C) (o : ControlPlane C) → Q o → Q (with_conditions f o))
    (on_patch : (o : ControlPlane C) → Q o → allowed (Call.patch_control_plane o))
    (on_vpc : (id : String) (o : ControlPlane C) → Q o → Q (with_vpc_id id o))
    (on_subnet : (id : String) (o : ControlPlane C) → Q o → Q (with_subnet_id id o))
    (calls_vpc : (r : CreateVpcRequest) → allowed (Call.create_vpc r))
    (calls_subnet : (r : CreateSubnetRequest) → allowed (Call.create_subnet r))
    (calls_list : (id : String) → allowed (Call.list_subnets id)) where
  vpc-Stays : Stays Q allowed before (reconcile_vpc env cluster svc)
  unfolding reconcile_vpc create_vpc generate_name
  vpc-Stays = Keeps-bind _ _ Keeps-get_obj (λ cp. Keeps-when _ _ (λ _.
      Keeps-then _ _
        (Keeps-unless _ _ (λ _.
          Keeps-then _ _ (mark_false-Stays env Q allowed before on_conditions _ _ _ _)
            (Keeps-wrap _ _ (patch-Stays env Q allowed before on_patch))))
        (Keeps-bind _ _ (search (within_rules, calls_vpc) depth 9)
          (λ id. search (within_rules, on_vpc)))))

  first-Stays : (ids : List String) → Stays Q allowed before (first_subnet env cluster svc ids)
  unfolding first_subnet
  first-Stays [] = search within_rules
  first-Stays (id ∷ ids) = search within_rules

  adopt-Stays :
      (id : String) (e : Error) → Stays Q allowed before (adopt_subnet env cluster svc id e)
  unfolding adopt_subnet list_subnets
  adopt-Stays id e = search (within_rules, first-Stays, calls_list) depth 9

  create-Stays : Stays Q allowed before (create_subnet env cluster svc)
  unfolding create_subnet generate_name
  create-Stays = search (within_rules, adopt-Stays, calls_subnet) depth 9

  pub subnets-Stays : Stays Q allowed before (reconcile_subnets env cluster svc)
  unfolding reconcile_subnets
  subnets-Stays = Keeps-bind _ _ Keeps-get_obj (λ cp. Keeps-when _ _ (λ _.
      Keeps-then _ _
        (Keeps-unless _ _ (λ _.
          Keeps-then _ _ (mark_false-Stays env Q allowed before on_conditions _ _ _ _)
            (Keeps-wrap _ _ (patch-Stays env Q allowed before on_patch))))
        (Keeps-bind _ _ (Keeps-wrap _ _ create-Stays) (λ id. search (within_rules, on_subnet)))))

  failed-Stays :
      (t r : String) (e : Error) → Stays Q allowed before (network_failed env cluster svc t r e)
  unfolding network_failed error_condition_after_init
  failed-Stays t r e =
      search (within_rules, mark_false-Stays env Q allowed before on_conditions) depth 9

  pub network-Stays : Stays Q allowed before (reconcile_network env cluster svc)
  unfolding reconcile_network
  network-Stays =
      search
        (
          within_rules,
          mark_true-Stays env Q allowed before on_conditions,
          failed-Stays,
          vpc-Stays,
          subnets-Stays,
        )
        depth 9
