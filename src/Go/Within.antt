-- ===== src/Go/Within.antt =====
-- What a run may do: keep a predicate `Q` of the object in memory, and make calls of one kind only.
use cluster_api_provider_cce.Prelude.{◌≡◌, refl, ap, List, [], ◌∷◌, ◌++◌}
use cluster_api_provider_cce.Errors.{Result}
use cluster_api_provider_cce.Go.{State, M, pure, call, emit, sample, get_obj, modify, ◌>>=◌}
use cluster_api_provider_cce.Go.Keeps.{
  Keeps, Keeps-pure, Keeps-raise, Keeps-crash, Keeps-deref, Keeps-call, Keeps-sample, Keeps-catch,
  Keeps-wrap, Keeps-if, Keeps-when, Keeps-unless, Keeps-attempt, Keeps-defer_with, Keeps-get_obj,
  Keeps-emit, Keeps-modify, Keeps-bind, Keeps-then,
}

abbrev pub All : {E : Type 0} → (E → Type 0) → List E → Type 0
All P [] = Unit {0}
All P (c ∷ cs) = P c × All P cs

-- The object satisfies `Q`; the calls since `before` are all allowed.
pub record Within {W E O : Type 0} (Q : O → Type 0) (allowed : E → Type 0) (before : List E)
    (s : State W E O) : Type 0 where
  pub holds : Q s.obj
  pub calls : List E
  pub trace_eq : s.trace ≡ calls ++ before
  pub all_allowed : All allowed calls

module _ {W E O : Type 0} {Q : O → Type 0} {allowed : E → Type 0} {before : List E} where
  abbrev pub one_more :
      (c : E) (s : State W E O) (s' : State W E O)
      → s'.trace ≡ c ∷ s.trace
      → allowed c
      → Q s'.obj
      → Within Q allowed before s
      → Within Q allowed before s'
  one_more c s s' e k q h = record {
    holds = q;
    calls = c ∷ h.calls;
    trace_eq = rw e (ap (λ t. c ∷ t) h.trace_eq);
    all_allowed = (k, h.all_allowed);
  }

  pub Within-call :
      {A : Type 0} (c : E) (f : W → Result A × W)
      → allowed c
      → Keeps (Within Q allowed before) (call c f)
  Within-call c f k = Keeps-call c f (λ s w h. one_more c s _ refl k h.holds h)

  pub Within-sample : {A : Type 0} (f : W → A × W) → Keeps (Within Q allowed before) (sample f)
  Within-sample f = Keeps-sample f (λ s w h. record {
    holds = h.holds;
    calls = h.calls;
    trace_eq = h.trace_eq;
    all_allowed = h.all_allowed;
  })

  pub Within-emit : (c : E) → allowed c → Keeps {W = W} (Within Q allowed before) (emit c)
  Within-emit c k = Keeps-emit c (λ s h. one_more c s _ refl k h.holds h)

  pub Within-modify :
      (f : O → O) → ((o : O) → Q o → Q (f o)) → Keeps {W = W} (Within Q allowed before) (modify f)
  Within-modify f k = Keeps-modify f (λ s h. record {
    holds = k s.obj h.holds;
    calls = h.calls;
    trace_eq = h.trace_eq;
    all_allowed = h.all_allowed;
  })

  -- What the object satisfies is known of the value that is read.
  pub Within-get_obj :
      {A : Type 0} (f : O → M W E O A)
      → ((o : O) → Q o → Keeps (Within Q allowed before) (f o))
      → Keeps (Within Q allowed before) (get_obj >>= f)
  unfolding ◌>>=◌
  Within-get_obj f k = record { at = λ s h. (k s.obj h.holds).at s h }

  -- The same for a value that a method computes from the object.
  pub Within-read :
      {A B : Type 0} (g : O → B) (f : B → M W E O A)
      → ((o : O) → Q o → Keeps (Within Q allowed before) (f (g o)))
      → Keeps (Within Q allowed before) ((get_obj >>= λ o. pure (g o)) >>= f)
  unfolding ◌>>=◌
  Within-read g f k = record { at = λ s h. (k s.obj h.holds).at s h }

  pub start : (s : State W E O) → Q s.obj → s.trace ≡ before → Within Q allowed before s
  start s q e = record { holds = q; calls = []; trace_eq = e; all_allowed = tt }

pub ruleset within_rules = (
  Keeps-pure, Keeps-raise, Keeps-crash, Keeps-deref, Keeps-catch, Keeps-wrap, Keeps-if, Keeps-when,
  Keeps-unless, Keeps-attempt, Keeps-defer_with, Keeps-get_obj, Keeps-bind, Keeps-then, Within-call,
  Within-sample, Within-emit, Within-modify,
)

abbrev pub Stays : {W E O A : Type 0} → (O → Type 0) → (E → Type 0) → List E → M W E O A → Type 0
Stays Q allowed before m = Keeps (Within Q allowed before) m

pub run_within :
    {W E O A : Type 0} (Q : O → Type 0) (allowed : E → Type 0) (m : M W E O A)
    → ((before : List E) → Stays Q allowed before m)
    → (s : State W E O) → Q s.obj
    → Within Q allowed s.trace (m s).1
run_within Q allowed m k s q = (k s.trace).at s (start s q refl)
