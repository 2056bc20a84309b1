-- ===== src/Controller/ControlPlane/Lifecycle.antt =====
-- The life of a control plane's finalizer, over any sequence of edits and of reconciliations of
-- internal/controller/ccemanagedcontrolplane_controller.go.
use cluster_api_provider_cce.Prelude.{
  ℕ, ◌≡◌, ◌≢◌, refl, ap, inl, inr, Bool, true, false, Option, none, some, ◌∷◌,
}
use cluster_api_provider_cce.Errors.{Result, ok, err}
use cluster_api_provider_cce.Go.{
  State, Outcome, ret, fail, panic, deref, pure, defer_with, if◌then◌else◌, wrap, catch, ◌>>=◌,
}
use cluster_api_provider_cce.Go.Returns.{Returns}
use cluster_api_provider_cce.Env.{Env}
use cluster_api_provider_cce.Call.{Call, CpM}
use cluster_api_provider_cce.Api.Meta.{Cluster, ObjectReference}
use cluster_api_provider_cce.Api.ControlPlane.{ControlPlane, managed_control_plane_finalizer}
use cluster_api_provider_cce.Scope.ControlPlane.{new_control_plane_scope}
use cluster_api_provider_cce.Controller.Requests.{CtrlResult, done}
use cluster_api_provider_cce.Controller.ControlPlane.{
  close_scope, run_scoped, reconcile_delete, reconcile_external, reconcile_normal,
}
use cluster_api_provider_cce.Controller.ControlPlane.Closing.{close-obj}
use cluster_api_provider_cce.Controller.ControlPlane.Deletion.{Deleted, reconcile_delete-Deleted}
use cluster_api_provider_cce.Controller.ControlPlane.Finalizer.{reconcile_external-guarded}

-- The object has the finalizer of control planes.
abbrev pub Held : {W C : Type 0} → Env W C → ControlPlane C → Type 0
Held env cp = env.finalizers.contains managed_control_plane_finalizer cp.meta.finalizers ≡ true

-- The state in which the scope has been made.
abbrev pub opened :
    {W C : Type 0} → Env W C → State W (Call C) (ControlPlane C) → State W (Call C) (ControlPlane C)
opened env s = record s {
  world = (env.kube.new_control_plane_helper s.obj s.world).1;
  trace = Call.read "patch helper" ∷ s.trace;
}

module _ {W C : Type 0} (env : Env W C) (cluster : Cluster) where
  -- A deletion that is over, with nothing left to clean up.
  abbrev pub Completes : State W (Call C) (ControlPlane C) → Type 0
  Completes s =
      (s.obj.meta.deleted ≡ true) × ((reconcile_delete env cluster (opened env s)).0 ≡ ret done)

  deferred-obj :
      {A : Type 0} (m : CpM W C A) (s : State W (Call C) (ControlPlane C))
      → (defer_with m (close_scope env) s).1.obj ≡ (m s).1.obj
  unfolding defer_with
  deferred-obj m s = close-obj _ _ _

  undeleted-Held :
      (cp : ControlPlane C) (r : Outcome CtrlResult × State W (Call C) (ControlPlane C))
      → Returns (Deleted env cp) (λ o. o ≡ cp) r
      → r.0 ≢ ret done
      → Held env cp
      → Held env r.1.obj
  undeleted-Held cp (ret a, t) (inl (p, e)) n h = rw e h
  undeleted-Held cp (ret a, t) (inr (p, e)) n h = absurd (n (ap ret p))
  undeleted-Held cp (fail x, t) e n h = rw e h
  undeleted-Held cp (panic, t) e n h = rw e h

  external-Held :
      (s : State W (Call C) (ControlPlane C)) → Held env (reconcile_external env cluster s).1.obj
  external-Held s =
      rw (reconcile_external-guarded env cluster s)
        (env.finalizers.contains-add managed_control_plane_finalizer s.obj.meta.finalizers)

  when-Held :
      (b : Bool) (r : CtrlResult) (s : State W (Call C) (ControlPlane C))
      → Held env s.obj
      → Held env ((if b then reconcile_external env cluster else pure r) s).1.obj
  unfolding if◌then◌else◌ pure
  when-Held true r s h = external-Held s
  when-Held false r s h = h

  by_ref-Held :
      (o : Option ObjectReference) (b : ObjectReference → Bool) (r : CtrlResult)
      (s : State W (Call C) (ControlPlane C))
      → Held env s.obj
      → Held env
          ((deref o >>= λ ref. if b ref then reconcile_external env cluster else pure r) s).1.obj
  unfolding ◌>>=◌
  by_ref-Held none b r s h = h
  by_ref-Held (some ref) b r s h = when-Held (b ref) r s h

  normal-Held :
      (period : ℕ) (s : State W (Call C) (ControlPlane C))
      → Held env s.obj
      → Held env (reconcile_normal env period cluster s).1.obj
  unfolding reconcile_normal
  normal-Held period s h = by_ref-Held _ _ _ s h

  body-Held :
      (b : Bool) (period : ℕ) (s : State W (Call C) (ControlPlane C))
      → (b ≡ true → (reconcile_delete env cluster s).0 ≢ ret done)
      → Held env s.obj
      → Held env
          ((if b then reconcile_delete env cluster else reconcile_normal env period cluster)
            s).1.obj
  unfolding if◌then◌else◌
  body-Held true period s n h =
      undeleted-Held s.obj (reconcile_delete env cluster s) (reconcile_delete-Deleted env cluster s)
        (n refl) h
  body-Held false period s n h = normal-Held period s h

  scoped-Held :
      (period : ℕ) (s : State W (Call C) (ControlPlane C)) (r : Result (Unit {0}))
      → (env.kube.new_control_plane_helper s.obj s.world).0 ≡ r
      → ¬ (Completes s)
      → Held env s.obj
      → Held env (run_scoped env period cluster s).1.obj
  unfolding run_scoped new_control_plane_scope wrap catch ◌>>=◌
  scoped-Held period s (err e) q n h = rw q h
  scoped-Held period s (ok u) q n h =
      rw q (rw (deferred-obj _ _) (body-Held s.obj.meta.deleted period _ (λ d c. n (d, c)) h))

module _ {W C : Type 0} (env : Env W C) (cp : ControlPlane C) where
  -- The control planes that `cp` may become: by edits that leave the finalizers alone, such as those of
  -- the spec, of the labels or of the deletion timestamp, and by reconciliations of any cluster in any
  -- world, each of which returns, fails or panics, and none of which completes a deletion. After a
  -- reconciliation the control plane is the object in memory, which the last call patches.
  pub data Becomes : ControlPlane C → Type 0 where
    unchanged : Becomes cp
    edited : {o p : ControlPlane C} → Becomes o → p.meta.finalizers ≡ o.meta.finalizers → Becomes p
    reconciled :
        (cluster : Cluster) (period : ℕ) (s : State W (Call C) (ControlPlane C))
        → Becomes s.obj
        → ¬ (Completes env cluster s)
        → Becomes (run_scoped env period cluster s).1.obj

  -- A control plane that has its finalizer keeps it, whatever it becomes.
  pub finalizer-lasts : (o : ControlPlane C) → Held env cp → Becomes o → Held env o
  finalizer-lasts o h unchanged = h
  finalizer-lasts o h (edited b e) = rw e (finalizer-lasts _ h b)
  finalizer-lasts o h (reconciled cluster period s b n) =
      scoped-Held env cluster period s _ refl n (finalizer-lasts s.obj h b)
