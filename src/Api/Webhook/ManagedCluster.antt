-- ===== src/Api/Webhook/ManagedCluster.antt =====
-- api/v1beta1/ccemanagedcluster_webhook.go
use cluster_api_provider_cce.Prelude.{String}
use cluster_api_provider_cce.Errors.{Result}
use cluster_api_provider_cce.Go.{M, get_obj, call, ◌>>=◌}
use cluster_api_provider_cce.Api.ManagedCluster.{ManagedCluster}
use cluster_api_provider_cce.Api.Webhook.{Event, info}

abbrev pub log_name : String
log_name = "ccemanagedcluster-resource"

module _ {W : Type 0} where
  unfoldable pub setup_webhook_with_manager :
      (W → Result (Unit {0}) × W) → M W Event ManagedCluster (Unit {0})
  setup_webhook_with_manager complete = call (Event.registered "CCEManagedCluster") complete

  unfoldable pub default : M W Event ManagedCluster (Unit {0})
  default = do r ← get_obj; info log_name "default" r.meta.name

  unfoldable pub validate_create : M W Event ManagedCluster (Unit {0})
  validate_create = do r ← get_obj; info log_name "validate create" r.meta.name

  -- The old object is not looked at.
  unfoldable pub validate_update : {Old : Type 0} → Old → M W Event ManagedCluster (Unit {0})
  validate_update old = do r ← get_obj; info log_name "validate update" r.meta.name

  unfoldable pub validate_delete : M W Event ManagedCluster (Unit {0})
  validate_delete = do r ← get_obj; info log_name "validate delete" r.meta.name
