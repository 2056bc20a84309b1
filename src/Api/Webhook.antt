-- ===== src/Api/Webhook.antt =====
-- What the webhooks of api/v1beta1 do outside: a line of a package's logger, and a registration with the
-- manager, whose builder is a parameter.
pub mod ManagedCluster
pub mod ControlPlane
pub mod MachinePool
pub mod Laws
use cluster_api_provider_cce.Prelude.{String}
use cluster_api_provider_cce.Go.{M, emit}

pub data Event : Type 0 where
  logged : String → String → String → Event  -- the logger's name, the message, the object's name
  registered : String → Event  -- NewWebhookManagedBy(mgr).For(r).Complete(), for a kind

-- Info of the logger of that name, with the key "name".
unfoldable pub info : {W O : Type 0} → String → String → String → M W Event O (Unit {0})
info log msg name = emit (Event.logged log msg name)
