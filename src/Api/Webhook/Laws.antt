-- ===== src/Api/Webhook/Laws.antt =====
-- The webhook handlers of api/v1beta1/*_webhook.go.
use cluster_api_provider_cce.Prelude.{String, ◌≡◌, refl, ◌∷◌}
use cluster_api_provider_cce.Go.{State, M, ret, ◌>>=◌}
use cluster_api_provider_cce.Api.ManagedCluster.{ManagedCluster}
use cluster_api_provider_cce.Api.ControlPlane.{ControlPlane}
use cluster_api_provider_cce.Api.MachinePool.{ManagedMachinePool}
use cluster_api_provider_cce.Api.Webhook.{Event, info}
use cluster_api_provider_cce.Api.Webhook.ManagedCluster
use cluster_api_provider_cce.Api.Webhook.ControlPlane
use cluster_api_provider_cce.Api.Webhook.MachinePool

-- The handler returns no error, leaves the object alone, and writes one line to the log.
abbrev Admits : {W O : Type 0} → M W Event O (Unit {0}) → State W Event O → Type 0
Admits m s =
    (log msg name : String) × (m s
      ≡ (ret tt, record s { trace = Event.logged log msg name ∷ s.trace }))

-- The four handlers of the kind.
managed_cluster-Admits :
    {W : Type 0} {Old : Type 0} (old : Old) (s : State W Event ManagedCluster)
    → Admits ManagedCluster.default s
      × Admits ManagedCluster.validate_create s
      × Admits (ManagedCluster.validate_update old) s
      × Admits ManagedCluster.validate_delete s
unfolding ManagedCluster.default ManagedCluster.validate_create ManagedCluster.validate_update
    ManagedCluster.validate_delete info ◌>>=◌
managed_cluster-Admits old s = ((_, _, _, refl), (_, _, _, refl), (_, _, _, refl), (_, _, _, refl))

-- The four handlers of the kind.
control_plane-Admits :
    {W : Type 0} {C : Type 0} {Old : Type 0} (old : Old) (s : State W Event (ControlPlane C))
    → Admits ControlPlane.default s
      × Admits ControlPlane.validate_create s
      × Admits (ControlPlane.validate_update old) s
      × Admits ControlPlane.validate_delete s
unfolding ControlPlane.default ControlPlane.validate_create ControlPlane.validate_update
    ControlPlane.validate_delete info ◌>>=◌
control_plane-Admits old s = ((_, _, _, refl), (_, _, _, refl), (_, _, _, refl), (_, _, _, refl))

-- The four handlers of the kind.
machine_pool-Admits :
    {W : Type 0} {C : Type 0} {Old : Type 0} (old : Old) (s : State W Event (ManagedMachinePool C))
    → Admits MachinePool.default s
      × Admits MachinePool.validate_create s
      × Admits (MachinePool.validate_update old) s
      × Admits MachinePool.validate_delete s
unfolding MachinePool.default MachinePool.validate_create MachinePool.validate_update
    MachinePool.validate_delete info ◌>>=◌
machine_pool-Admits old s = ((_, _, _, refl), (_, _, _, refl), (_, _, _, refl), (_, _, _, refl))
