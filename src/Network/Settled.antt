-- ===== src/Network/Settled.antt =====
-- ReconcileNetwork, run again after it has returned.
use cluster_api_provider_cce.Prelude.{
  String, ◌≡◌, ◌∙◌, sym, refl, ap, false, Option, some, List, [], ◌∷◌, ◌==◌,
}
use cluster_api_provider_cce.Errors.{Error, Result, ok}
use cluster_api_provider_cce.Go.{State, ret, call, sample}
use cluster_api_provider_cce.Go.Keeps.{
  Keeps, Keeps-bind, Keeps-get_obj, Keeps-call, Keeps-sample, Keeps-modify, Keeps-when, Keeps-then,
  Keeps-wrap, keeps_rules,
}
use cluster_api_provider_cce.Go.Gives.{
  Gives, Any, Gives-pure, Gives-raise, Gives-crash, Gives-deref, Gives-call, Gives-catch,
  Gives-wrap, Gives-Any, Gives-kept, Gives-if, Gives-holding, Gives-get_obj, Gives-modify,
  Gives-when, Gives-bind, Gives-keeping,
}
use cluster_api_provider_cce.Env.{Env}
use cluster_api_provider_cce.Call.{Call}
use cluster_api_provider_cce.Sdk.{CreateVpcRequest, CreateSubnetRequest}
use cluster_api_provider_cce.Api.Meta.{Cluster}
use cluster_api_provider_cce.Api.ControlPlane.{ControlPlane}
use cluster_api_provider_cce.Scope.ControlPlane.{
  set_conditions, mark_false, mark_true, patch_object,
}
use cluster_api_provider_cce.Service.{Service}
use cluster_api_provider_cce.Network.{
  with_vpc_id, with_subnet_id, create_vpc, generate_name, list_subnets, first_subnet, adopt_subnet,
  create_subnet, reconcile_vpc, reconcile_subnets, network_failed, reconcile_network,
}
use cluster_api_provider_cce.Network.Laws.{marked, network-idempotent}

-- An id that is given is not empty.
abbrev Given : String → Type 0
Given id = (id == "") ≡ false

-- The VPC service never answers with an empty id.
pub record GivesIds {W : Type 0} (svc : Service W) : Type 0 where
  pub of_vpc :
      (r : CreateVpcRequest) (w : W) (id : String)
      → (svc.vpc.create_vpc r w).0 ≡ ok (some id)
      → (id == "") ≡ false
  pub of_subnet :
      (r : CreateSubnetRequest) (w : W) (id : String)
      → (svc.vpc.create_subnet r w).0 ≡ ok (some id)
      → (id == "") ≡ false
  pub of_list :
      (vpc_id : String) (w : W) (id : String) (ids : List String)
      → (svc.vpc.list_subnets vpc_id w).0 ≡ ok (some (id ∷ ids))
      → (id == "") ≡ false

module _ {W C : Type 0} (env : Env W C) (cluster : Cluster) (svc : Service W)
    (gives : GivesIds svc) where
  abbrev OnObj : Type 1
  OnObj = State W (Call C) (ControlPlane C) → Type 0

  abbrev HasVpc : OnObj
  HasVpc s = Given s.obj.spec.network.vpc_id

  abbrev HasSubnet : OnObj
  HasSubnet s = Given s.obj.spec.network.subnet_id

  abbrev Value : String → OnObj
  Value id s = Given id

  create_vpc-Gives : Gives Any Value (create_vpc env cluster svc)
  unfolding create_vpc
  create_vpc-Gives = Gives-bind _ _ (Gives-Any _) (λ name. Gives-bind _ _ (Gives-Any _) (λ cp.
      Gives-bind {K = λ vpc s. (id : String) → vpc ≡ some id → Given id} _ _
        (Gives-wrap _ _ (Gives-call _ _ (λ s a p e id h. gives.of_vpc _ s.world id (e ∙ ap ok h))))
        (λ vpc. Gives-deref vpc (λ id s h g. g id h))))

  vpc-Gives : Gives Any (λ u. HasVpc) (reconcile_vpc env cluster svc)
  unfolding reconcile_vpc with_vpc_id
  vpc-Gives = Gives-bind {K = λ cp s. cp ≡ s.obj} _ _ (Gives-get_obj (λ s p. refl)) (λ cp.
      Gives-when _ _
        (λ n. Gives-bind _ _ (Gives-Any _) (λ u.
          Gives-bind {K = Value} _ _ (Gives-wrap _ _ create_vpc-Gives)
            (λ id. Gives-modify _ (λ s g. g))))
        (λ s h p. ap (λ (o : ControlPlane C). o.spec.network.vpc_id == "") (sym p) ∙ h))

  first-Gives :
      (ids : List String)
      → ((id : String) (rest : List String) → ids ≡ id ∷ rest → Given id)
      → Gives Any Value (first_subnet env cluster svc ids)
  unfolding first_subnet
  first-Gives [] g = Gives-crash
  first-Gives (id ∷ ids) g = Gives-pure id (λ s p. g id ids refl)

  abbrev Listed : Option (List String) → OnObj
  Listed response s = (id : String) (ids : List String) → response ≡ some (id ∷ ids) → Given id

  list-Gives : (vpc_id : String) → Gives Any Listed (list_subnets env cluster svc vpc_id)
  unfolding list_subnets
  list-Gives vpc_id =
      Gives-wrap _ _
        (Gives-call _ _ (λ s a p e id ids h. gives.of_list vpc_id s.world id ids (e ∙ ap ok h)))

  adopt-Gives :
      (vpc_id : String) (e : Error) → Gives Any Value (adopt_subnet env cluster svc vpc_id e)
  unfolding adopt_subnet
  adopt-Gives vpc_id e =
      Gives-if _ _ _
        (λ y. Gives-bind _ _ (list-Gives vpc_id) (λ response.
          Gives-bind {K = λ subnets s. Listed (some subnets) s} _ _
            (Gives-deref response (λ subnets s h g id ids q. g id ids (h ∙ q)))
            (λ subnets.
              Gives-holding _ (λ s g. first-Gives subnets (λ id ids h. g id ids (ap some h))))))
        (λ n. Gives-raise _)

  create_subnet-Gives : Gives Any Value (create_subnet env cluster svc)
  unfolding create_subnet
  create_subnet-Gives = Gives-bind _ _ (Gives-Any _) (λ name. Gives-bind _ _ (Gives-Any _) (λ cp.
      Gives-catch _ _ (record { at = λ s u. tt })
        (Gives-bind {K = λ subnet s. (id : String) → subnet ≡ some id → Given id} _ _
          (Gives-call _ _ (λ s a p e id h. gives.of_subnet _ s.world id (e ∙ ap ok h)))
          (λ subnet. Gives-deref subnet (λ id s h g. g id h)))
        (adopt-Gives _)))

  call-Kept : {A : Type 0} (c : Call C) (f : W → Result A × W) → Keeps HasVpc (call c f)
  call-Kept c f = Keeps-call c f (λ s w h. h)

  sample-Kept : {A : Type 0} (f : W → A × W) → Keeps HasVpc (sample f)
  sample-Kept f = Keeps-sample f (λ s w h. h)

  conditions-Kept : (f : C → C) → Keeps HasVpc (set_conditions f)
  unfolding set_conditions
  conditions-Kept f = Keeps-modify _ (λ s h. h)

  patch-Kept : Keeps HasVpc (patch_object env)
  unfolding patch_object
  patch-Kept = search (keeps_rules, call-Kept)

  first-Kept : (ids : List String) → Keeps HasVpc (first_subnet env cluster svc ids)
  unfolding first_subnet
  first-Kept [] = search keeps_rules
  first-Kept (id ∷ ids) = search keeps_rules

  adopt-Kept : (id : String) (e : Error) → Keeps HasVpc (adopt_subnet env cluster svc id e)
  unfolding adopt_subnet list_subnets
  adopt-Kept id e = search (keeps_rules, first-Kept, call-Kept) depth 9

  create-Kept : Keeps HasVpc (create_subnet env cluster svc)
  unfolding create_subnet generate_name
  create-Kept = search (keeps_rules, adopt-Kept, call-Kept, sample-Kept) depth 9

  subnets-Gives : Gives HasVpc (λ u s. HasVpc s × HasSubnet s) (reconcile_subnets env cluster svc)
  unfolding reconcile_subnets with_subnet_id mark_false
  subnets-Gives =
      Gives-bind {K = λ cp s. HasVpc s × (cp ≡ s.obj)} _ _ (Gives-get_obj (λ s p. (p, refl))) (λ cp.
        Gives-when _ _
          (λ n.
            Gives-bind {K = λ u. HasVpc} _ _
              (Gives-kept _ (λ s p. p.0)
                (search (keeps_rules, conditions-Kept, patch-Kept) depth 9))
              (λ u.
                Gives-bind {K = λ id s. HasVpc s × Given id} _ _
                  (Gives-wrap _ _ (Gives-keeping _ create-Kept create_subnet-Gives))
                  (λ id. Gives-modify _ (λ s g. g))))
          (λ s h p.
            (p.0, ap (λ (o : ControlPlane C). o.spec.network.subnet_id == "") (sym p.1) ∙ h)))

  failed-Gives :
      {P : OnObj} {K : Unit {0} → OnObj} (t r : String) (e : Error)
      → Gives P K (network_failed env cluster svc t r e)
  unfolding network_failed
  failed-Gives t r e =
      Gives-bind _ _ (Gives-Any _) (λ v. Gives-bind _ _ (Gives-Any _) (λ u. Gives-raise e))

  subnets-Kept : Keeps HasVpc (reconcile_subnets env cluster svc)
  unfolding reconcile_subnets with_subnet_id mark_false
  subnets-Kept = Keeps-bind _ _ Keeps-get_obj (λ cp. Keeps-when _ _ (λ n.
      Keeps-then _ _ (search (keeps_rules, conditions-Kept, patch-Kept) depth 9)
        (Keeps-bind _ _ (Keeps-wrap _ _ create-Kept) (λ id. Keeps-modify _ (λ s h. h)))))

  network-Gives : Gives Any (λ u s. HasVpc s × HasSubnet s) (reconcile_network env cluster svc)
  unfolding reconcile_network mark_true set_conditions
  network-Gives =
      Gives-bind _ _
        (Gives-catch _ _ (record { at = λ s u. tt }) vpc-Gives (λ e. failed-Gives _ _ e))
        (λ u. Gives-bind {K = λ u. HasVpc} _ _ (Gives-modify _ (λ s h. h)) (λ u.
          Gives-bind _ _ (Gives-catch _ _ subnets-Kept subnets-Gives (λ e. failed-Gives _ _ e))
            (λ u. Gives-modify _ (λ s h. h))))

-- Where the VPC service gives no empty ids: once ReconcileNetwork has returned without an error, running it
-- again returns without an error, calls nothing, and only marks the conditions VpcReady and SubnetsReady.
pub network-settles :
    {W C : Type 0} (env : Env W C) (cluster : Cluster) (svc : Service W)
    → GivesIds svc
    → (s : State W (Call C) (ControlPlane C))
    → let (r, s') = reconcile_network env cluster svc s in
      r ≡ ret tt → reconcile_network env cluster svc s' ≡ (ret tt, marked env s')
network-settles env cluster svc gives s e =
    let (v, n) = (network-Gives env cluster svc gives).at s tt tt e in
    network-idempotent env cluster svc _ v n
