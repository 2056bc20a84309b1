-- ===== src/Main/Performs.antt =====
-- Actions of a start-up as lists of calls: `Performs` and its rules.
use cluster_api_provider_cce.Prelude.{String, ◌≡◌, refl, ◌∙◌, List, [], ◌∷◌, ◌++◌}
use cluster_api_provider_cce.Errors.{Error, Result, ok, err, new, wrapped}
use cluster_api_provider_cce.Go.{
  State, Outcome, ret, fail, panic, raise, emit, catch, wrap, recover, continue, of_result, ◌>>=◌,
  ◌>>◌,
}
use cluster_api_provider_cce.Manager.{Setup, Manager, SetupM}
use cluster_api_provider_cce.Controller.Setup.{request}
use cluster_api_provider_cce.Main.{or_exit}

abbrev Ran : Type 0 → Type 0
Ran W = Outcome (Unit {0}) × State W Setup (Unit {0})

-- A run up to the error that it returns.
abbrev pub unnamed : {W : Type 0} → Ran W → Ran W
unnamed (ret u, s) = (ret u, s)
unnamed (fail e, s) = (fail (new ""), s)
unnamed (panic, s) = (panic, s)

module _ {W : Type 0} (mgr : Manager W) where
  abbrev answered : Setup → Result (Unit {0}) × W → SetupM W → SetupM W
  answered c (ok u, w) k s = k (record s { world = w; trace = c ∷ s.trace })
  answered c (err e, w) k s = (fail e, record s { world = w; trace = Setup.exit 1 ∷ (c ∷ s.trace) })

  -- Call by call, and then `k`; the first call that fails is followed by the exit alone.
  abbrev pub run_then : List Setup → SetupM W → SetupM W
  run_then [] k s = k s
  run_then (c ∷ cs) k s = answered c (mgr.run c s.world) (run_then cs k) s

  abbrev pub run_plan : List Setup → SetupM W
  run_plan cs = run_then cs (λ s. (ret tt, s))

module _ {W : Type 0} (mgr : Manager W) where
  abbrev pub Alike : SetupM W → SetupM W → Type 0
  Alike k l = (s : State W Setup (Unit {0})) → unnamed (k s) ≡ unnamed (l s)

  -- With the exit on an error, the action makes the calls, whatever follows.
  pub record Performs (cs : List Setup) (m : SetupM W) : Type 0 where
    pub at : (k l : SetupM W) → Alike k l → Alike (or_exit m >> k) (run_then mgr cs l)

  answered-Alike :
      (c : Setup) (r : Result (Unit {0}) × W) (k l : SetupM W)
      → Alike k l
      → (s : State W Setup (Unit {0}))
      → unnamed (
          continue
            (recover
              (of_result r.0)
              (λ e. emit (Setup.exit 1) >> raise e)
              (record s { world = r.1; trace = c ∷ s.trace })).0
            (λ u. k)
            (recover
              (of_result r.0)
              (λ e. emit (Setup.exit 1) >> raise e)
              (record s { world = r.1; trace = c ∷ s.trace })).1)
        ≡ unnamed (answered mgr c r l s)
  unfolding ◌>>=◌
  answered-Alike c (ok u, w) k l h s = h _
  answered-Alike c (err e, w) k l h s = refl

  pub request-Performs : (c : Setup) → Performs (c ∷ []) (request mgr c)
  unfolding request or_exit catch ◌>>=◌
  request-Performs c = record { at = λ k l h s. answered-Alike c (mgr.run c s.world) k l h s }

  -- `m` ended with `r`; the exit follows an error, and `k` a return.
  abbrev exit_or : Outcome (Unit {0}) → SetupM W → SetupM W
  exit_or r k s =
      let (q, t) = recover r (λ e. emit (Setup.exit 1) >> raise e) s in continue q (λ u. k) t

  rename-Alike :
      (r : Outcome (Unit {0})) (g : Error → Error) (k : SetupM W) (s : State W Setup (Unit {0}))
      → unnamed (exit_or (recover r (λ e. raise (g e)) s).0 k (recover r (λ e. raise (g e)) s).1)
        ≡ unnamed (exit_or r k s)
  unfolding raise ◌>>=◌
  rename-Alike (ret u) g k s = refl
  rename-Alike (fail e) g k s = refl
  rename-Alike panic g k s = refl

  pub catch-Performs :
      (cs : List Setup) (m : SetupM W) (g : Error → Error)
      → Performs cs m
      → Performs cs (catch m (λ e. raise (g e)))
  unfolding or_exit catch ◌>>=◌
  catch-Performs cs m g p = record {
    at = λ k l h s. rename-Alike (m s).0 g k (m s).1 ∙ p.at k l h s;
  }

  pub wrap-Performs :
      (cs : List Setup) (m : SetupM W) (msg : String) → Performs cs m → Performs cs (wrap msg m)
  unfolding wrap
  wrap-Performs cs m msg p = catch-Performs cs m (wrapped msg) p

  bind-Alike :
      (r : Outcome (Unit {0})) (n k : SetupM W) (s : State W Setup (Unit {0}))
      → unnamed (exit_or (continue r (λ u. n) s).0 k (continue r (λ u. n) s).1)
        ≡ unnamed (exit_or r (or_exit n >> k) s)
  unfolding raise or_exit catch ◌>>=◌
  bind-Alike (ret u) n k s = refl
  bind-Alike (fail e) n k s = refl
  bind-Alike panic n k s = refl

  answered-cong :
      (c : Setup) (r : Result (Unit {0}) × W) (k l : SetupM W)
      → Alike k l
      → Alike (answered mgr c r k) (answered mgr c r l)
  answered-cong c (ok u, w) k l h s = h _
  answered-cong c (err e, w) k l h s = refl

  append-Alike :
      (cs ds : List Setup) (l : SetupM W)
      → Alike (run_then mgr cs (run_then mgr ds l)) (run_then mgr (cs ++ ds) l)
  append-Alike [] ds l s = refl
  append-Alike (c ∷ cs) ds l s = answered-cong c (mgr.run c s.world) _ _ (append-Alike cs ds l) s

  pub then-Performs :
      (cs ds : List Setup) (m n : SetupM W)
      → Performs cs m
      → Performs ds n
      → Performs (cs ++ ds) (m >> n)
  unfolding or_exit catch ◌>>=◌
  then-Performs cs ds m n p q = record {
    at = λ k l h s.
        bind-Alike (m s).0 n k (m s).1
        ∙ (p.at (or_exit n >> k) (run_then mgr ds l) (q.at k l h) s ∙ append-Alike cs ds l s);
  }

  last-Alike :
      (r : Outcome (Unit {0})) (s : State W Setup (Unit {0}))
      → unnamed (recover r (λ e. emit (Setup.exit 1) >> raise e) s)
        ≡ unnamed (exit_or r (λ t. (ret tt, t)) s)
  unfolding raise ◌>>=◌
  last-Alike (ret tt) s = refl
  last-Alike (fail e) s = refl
  last-Alike panic s = refl

  pub last-Performs :
      (cs : List Setup) (m : SetupM W) → Performs cs m → Alike (or_exit m) (run_plan mgr cs)
  unfolding or_exit catch ◌>>=◌
  last-Performs cs m p s =
      last-Alike (m s).0 (m s).1 ∙ p.at (λ t. (ret tt, t)) (λ t. (ret tt, t)) (λ t. refl) s
