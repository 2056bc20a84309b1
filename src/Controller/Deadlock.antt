-- ===== src/Controller/Deadlock.antt =====
-- How the deletions of control planes and of their machine pools wait for each other:
-- internal/controller/ccemanagedcontrolplane_controller.go and ccemanagedmachinepool_controller.go.
pub mod Worlds
pub mod Pools
pub mod ControlPlanes
use cluster_api_provider_cce.Prelude.{ℕ, List, [], ◌∷◌}
use cluster_api_provider_cce.Go.{State}
use cluster_api_provider_cce.Go.Within.{All}
use cluster_api_provider_cce.Env.{Env}
use cluster_api_provider_cce.Call.{Call}
use cluster_api_provider_cce.Api.Meta.{NamespacedName}
use cluster_api_provider_cce.Controller.ControlPlane
use cluster_api_provider_cce.Controller.MachinePool
use cluster_api_provider_cce.Controller.Deadlock.Worlds.{Idle, Stalled, Waits}
use cluster_api_provider_cce.Controller.Deadlock.Pools.{pool-Waits}
use cluster_api_provider_cce.Controller.Deadlock.ControlPlanes.{control_plane-Waits}

-- A request that one of the two controllers works on.
pub data Turn : Type 0 where
  control_plane machine_pool : NamespacedName → Turn

module _ {W C : Type 0} (env : Env W C) (period : ℕ) where
  -- The state after a request, whatever its outcome is.
  abbrev pub after : Turn → State W (Call C) (Unit {0}) → State W (Call C) (Unit {0})
  after (Turn.control_plane request) s = (ControlPlane.reconcile env period request s).1
  after (Turn.machine_pool request) s = (MachinePool.reconcile env request s).1

  -- The requests, in any order.
  abbrev pub run : List Turn → State W (Call C) (Unit {0}) → State W (Call C) (Unit {0})
  run [] s = s
  run (turn ∷ turns) s = run turns (after turn s)

  module _ (S : W → Type 0) (stalled : Stalled env S) where
    abbrev Stuck : State W (Call C) (Unit {0}) → Type 0
    Stuck = Waits env S (λ u. Unit {0})

    after-Stuck : (turn : Turn) (s : State W (Call C) (Unit {0})) → Stuck s → Stuck (after turn s)
    after-Stuck (Turn.control_plane request) s h =
        (control_plane-Waits env S stalled period request).at s h
    after-Stuck (Turn.machine_pool request) s h = (pool-Waits env S stalled request).at s h

    run-Stuck :
        (turns : List Turn) (s : State W (Call C) (Unit {0})) → Stuck s → Stuck (run turns s)
    run-Stuck [] s h = h
    run-Stuck (turn ∷ turns) s h = run-Stuck turns (after turn s) (after-Stuck turn s h)

    -- In a class of worlds in which every control plane that is read is in deletion, not ready, and has its
    -- finalizer, in which every list of machine pools has one, and that reads and patches of such control
    -- planes do not leave: any number of reconciliations of control planes and of machine pools, in any
    -- order and whatever their outcomes, makes no calls but reads and patches of such control planes, each
    -- with its finalizer, and ends in the class.
    pub deadlock :
        (turns : List Turn) (w : W)
        → S w
        → let end = run turns (record { world = w; obj = tt; trace = [] }) in
          S end.world × All (Idle env) end.trace
    deadlock turns w h =
        let p = run-Stuck turns (record { world = w; obj = tt; trace = [] }) (h, (tt, tt)) in
        (p.0, p.1.0)
