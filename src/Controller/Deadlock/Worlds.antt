-- ===== src/Controller/Deadlock/Worlds.antt =====
-- Worlds in which control planes and machine pools wait for each other, and rules for reads in such worlds.
use cluster_api_provider_cce.Prelude.{String, ◌≡◌, true, false, [], ◌∷◌}
use cluster_api_provider_cce.Errors.{Result, ok, err}
use cluster_api_provider_cce.Go.{
  State, M, of_result, settle_result, continue, attempt, call, with_object, ◌>>=◌,
}
use cluster_api_provider_cce.Go.Keeps.{Keeps}
use cluster_api_provider_cce.Go.Within.{All}
use cluster_api_provider_cce.Env.{Env}
use cluster_api_provider_cce.Call.{Call}
use cluster_api_provider_cce.Api.Meta.{ObjectMeta, NamespacedName}
use cluster_api_provider_cce.Api.ControlPlane.{ControlPlane, managed_control_plane_finalizer}

-- A control plane in deletion that is not ready and has its finalizer.
abbrev pub InDeletion : {W C : Type 0} → Env W C → ControlPlane C → Type 0
InDeletion env cp =
    (cp.meta.deleted ≡ true)
    × ((cp.status.ready ≡ false)
        × (env.finalizers.contains managed_control_plane_finalizer cp.meta.finalizers ≡ true))

-- The calls that change nothing: reads, and patches of a control plane that stays in deletion.
abbrev pub Idle : {W C : Type 0} → Env W C → Call C → Type 0
Idle env (Call.read what) = Unit {0}
Idle env (Call.patch_control_plane cp) = InDeletion env cp
Idle env _ = ⊥

-- A class of worlds: each control plane that is read is in deletion, each list of machine pools has one,
-- and reads and patches of such control planes do not lead out of the class.
pub record Stalled {W C : Type 0} (env : Env W C) (S : W → Type 0) : Type 0 where
  pub control_planes :
      (key : NamespacedName) (w : W)
      → S w
      → (cp : ControlPlane C) → (env.kube.get_control_plane key w).0 ≡ ok cp
      → InDeletion env cp
  pub has_pools :
      (namespace name : String) (w : W)
      → S w
      → (env.kube.list_managed_machine_pools namespace name w).0 ≡ ok []
      → ⊥
  pub get_control_plane :
      (key : NamespacedName) (w : W) → S w → S (env.kube.get_control_plane key w).1
  pub list_pools :
      (namespace name : String) (w : W)
      → S w
      → S (env.kube.list_managed_machine_pools namespace name w).1
  pub get_pool :
      (key : NamespacedName) (w : W) → S w → S (env.kube.get_managed_machine_pool key w).1
  pub get_owner_pool : (key : NamespacedName) (w : W) → S w → S (env.kube.get_machine_pool key w).1
  pub get_owner : (meta : ObjectMeta) (w : W) → S w → S (env.kube.get_owner_cluster meta w).1
  pub get_cluster :
      (meta : ObjectMeta) (w : W) → S w → S (env.kube.get_cluster_from_metadata meta w).1
  pub make_helper :
      (cp : ControlPlane C) (w : W) → S w → S (env.kube.new_control_plane_helper cp w).1
  pub patch :
      (cp : ControlPlane C) (w : W)
      → InDeletion env cp
      → S w
      → S (env.kube.patch_control_plane cp w).1

module _ {W C O : Type 0} (env : Env W C) (S : W → Type 0) (Q : O → Type 0) where
  -- The world is of the class, the calls so far were idle, and the object satisfies `Q`.
  abbrev pub Waits : State W (Call C) O → Type 0
  Waits s = S s.world × (All (Idle env) s.trace × Q s.obj)

  pub read-Waits :
      {A : Type 0} (what : String) (f : W → Result A × W)
      → ((w : W) → S w → S (f w).1)
      → Keeps Waits (call (Call.read what) f)
  unfolding call
  read-Waits what f k = record { at = λ s h. (k s.world h.0, ((tt, h.1.0), h.1.1)) }

  by_answer :
      {A B : Type 0} (r : Result A) (s : State W (Call C) O) (f : Result A → M W (Call C) O B)
      → Keeps Waits (f r)
      → Waits s
      → Waits (continue (settle_result (of_result r) s).0 f (settle_result (of_result r) s).1).1
  by_answer (ok a) s f k h = k.at s h
  by_answer (err e) s f k h = k.at s h

  -- A read, and what follows by its answer, of which `K` is known.
  pub answer-Waits :
      {A B : Type 0} (K : Result A → Type 0) (what : String) (g : W → Result A × W)
      (f : Result A → M W (Call C) O B)
      → ((w : W) → S w → S (g w).1)
      → ((w : W) → S w → K (g w).0)
      → ((r : Result A) → K r → Keeps Waits (f r))
      → Keeps Waits (attempt (call (Call.read what) g) >>= f)
  unfolding attempt call ◌>>=◌
  answer-Waits K what g f k known kf = record {
    at = λ s h.
        by_answer (g s.world).0
          (record s { world = (g s.world).1; trace = Call.read what ∷ s.trace }) f
          (kf (g s.world).0 (known s.world h.0)) (k s.world h.0, ((tt, h.1.0), h.1.1));
  }

-- Work on an object that satisfies `Q`.
pub object-Waits :
    {W C O A : Type 0} (env : Env W C) (S : W → Type 0) (Q : O → Type 0) (o : O)
    (m : M W (Call C) O A)
    → Q o
    → Keeps (Waits env S Q) m
    → Keeps (Waits env S (λ (u : Unit {0}). Unit {0})) (with_object o m)
unfolding with_object
object-Waits env S Q o m q k = record {
  at = λ s h.
      let p = k.at (record { world = s.world; obj = o; trace = s.trace }) (h.0, (h.1.0, q)) in
      (p.0, (p.1.0, tt));
}
