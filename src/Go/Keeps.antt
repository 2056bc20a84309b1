-- ===== src/Go/Keeps.antt =====
-- Invariants of actions, however they end: one rule for each way to build an action.
use cluster_api_provider_cce.Prelude.{◌≡◌, refl, Bool, true, false, Option, none, some, ◌∷◌, String}
use cluster_api_provider_cce.Errors.{Error, Result}
use cluster_api_provider_cce.Go.{
  State, M, Outcome, ret, fail, panic, pure, raise, crash, deref, call, emit, sample, get_obj,
  modify, catch, wrap, recover, attempt, settle_result, continue, defer_with, reterr, ◌>>=◌, ◌>>◌,
  when, unless, if◌then◌else◌,
}

-- `m` keeps `P`, whether it returns, fails or panics.
pub record Keeps {W E O A : Type 0} (P : State W E O → Type 0) (m : M W E O A) : Type 0 where
  pub at : (s : State W E O) → P s → P (m s).1

module _ {W E O A : Type 0} (P : State W E O → Type 0) where
  settle-P : (r : Outcome A) (s : State W E O) → P s → P (settle_result r s).1
  settle-P (ret a) s p = p
  settle-P (fail e) s p = p
  settle-P panic s p = p

module _ {W E O A : Type 0} {P : State W E O → Type 0} where
  pub Keeps-pure : (a : A) → Keeps P (pure a)
  unfolding pure
  Keeps-pure a = record { at = λ s h. h }

  pub Keeps-raise : (e : Error) → Keeps P (raise {A = A} e)
  unfolding raise
  Keeps-raise e = record { at = λ s h. h }

  pub Keeps-crash : Keeps P (crash {A = A})
  unfolding crash
  Keeps-crash = record { at = λ s h. h }

  pub Keeps-deref : (o : Option A) → Keeps P (deref o)
  unfolding deref
  Keeps-deref none = record { at = λ s h. h }
  Keeps-deref (some a) = record { at = λ s h. h }

  pub Keeps-call :
      (c : E) (f : W → Result A × W)
      → ((s : State W E O) (w : W) → P s → P (record s { world = w; trace = c ∷ s.trace }))
      → Keeps P (call c f)
  unfolding call
  Keeps-call c f k = record { at = λ s h. k s (f s.world).1 h }

  pub Keeps-sample :
      (f : W → A × W)
      → ((s : State W E O) (w : W) → P s → P (record s { world = w }))
      → Keeps P (sample f)
  unfolding sample
  Keeps-sample f k = record { at = λ s h. k s (f s.world).1 h }

  recover-P :
      (r : Outcome A) (h : Error → M W E O A) (s : State W E O)
      → ((e : Error) → Keeps P (h e))
      → P s
      → P (recover r h s).1
  recover-P (ret a) h s k p = p
  recover-P (fail e) h s k p = (k e).at s p
  recover-P panic h s k p = p

  pub Keeps-catch :
      (m : M W E O A) (h : Error → M W E O A)
      → Keeps P m
      → ((e : Error) → Keeps P (h e))
      → Keeps P (catch m h)
  unfolding catch
  Keeps-catch m h km kh = record {
    at = λ s p. let (r, s') = m s in recover-P r h s' kh (km.at s p);
  }

  pub Keeps-wrap : (msg : String) (m : M W E O A) → Keeps P m → Keeps P (wrap msg m)
  unfolding wrap
  Keeps-wrap msg m km = Keeps-catch m _ km (λ e. record { at = λ s h. h })

  pub Keeps-if :
      (b : Bool) (m n : M W E O A)
      → (b ≡ true → Keeps P m)
      → (b ≡ false → Keeps P n)
      → Keeps P (if b then m else n)
  unfolding if◌then◌else◌
  Keeps-if true m n km kn = km refl
  Keeps-if false m n km kn = kn refl

  pub Keeps-attempt : (m : M W E O A) → Keeps P m → Keeps P (attempt m)
  unfolding attempt
  Keeps-attempt m km = record { at = λ s p. let (r, s') = m s in settle-P P r s' (km.at s p) }

  pub Keeps-defer_with :
      (m : M W E O A) (d : Option Error → M W E O (Option Error))
      → Keeps P m
      → ((e : Option Error) → Keeps P (d e))
      → Keeps P (defer_with m d)
  unfolding defer_with
  Keeps-defer_with m d km kd = record {
    at = λ s p. let (r, s') = m s in (kd (reterr r)).at s' (km.at s p);
  }

module _ {W E O : Type 0} {P : State W E O → Type 0} where
  pub Keeps-get_obj : Keeps P get_obj
  unfolding get_obj
  Keeps-get_obj = record { at = λ s h. h }

  pub Keeps-emit :
      (c : E) → ((s : State W E O) → P s → P (record s { trace = c ∷ s.trace })) → Keeps P (emit c)
  unfolding emit
  Keeps-emit c k = record { at = k }

  pub Keeps-modify :
      (f : O → O) → ((s : State W E O) → P s → P (record s { obj = f s.obj })) → Keeps P (modify f)
  unfolding modify
  Keeps-modify f k = record { at = k }

module _ {W E O : Type 0} {P : State W E O → Type 0} where
  pub Keeps-when : (b : Bool) (m : M W E O (Unit {0})) → (b ≡ true → Keeps P m) → Keeps P (when b m)
  unfolding when
  Keeps-when true m km = km refl
  Keeps-when false m km = Keeps-pure tt

  pub Keeps-unless :
      (b : Bool) (m : M W E O (Unit {0})) → (b ≡ false → Keeps P m) → Keeps P (unless b m)
  unfolding unless
  Keeps-unless true m km = Keeps-pure tt
  Keeps-unless false m km = km refl

module _ {W E O A B : Type 0} {P : State W E O → Type 0} where
  continue-P :
      (r : Outcome A) (f : A → M W E O B) (s : State W E O)
      → ((a : A) → Keeps P (f a))
      → P s
      → P (continue r f s).1
  continue-P (ret a) f s k p = (k a).at s p
  continue-P (fail e) f s k p = p
  continue-P panic f s k p = p

  pub Keeps-bind :
      (m : M W E O A) (f : A → M W E O B)
      → Keeps P m
      → ((a : A) → Keeps P (f a))
      → Keeps P (m >>= f)
  unfolding ◌>>=◌
  Keeps-bind m f km kf = record {
    at = λ s p. let (r, s') = m s in continue-P r f s' kf (km.at s p);
  }

  pub Keeps-then : (m : M W E O A) (k : M W E O B) → Keeps P m → Keeps P k → Keeps P (m >> k)
  Keeps-then m k km kk = Keeps-bind m _ km (λ _. kk)

pub ruleset keeps_rules = (
  Keeps-pure, Keeps-raise, Keeps-crash, Keeps-deref, Keeps-call, Keeps-sample, Keeps-catch,
  Keeps-wrap, Keeps-if, Keeps-when, Keeps-unless, Keeps-attempt, Keeps-defer_with, Keeps-get_obj,
  Keeps-emit, Keeps-modify, Keeps-bind, Keeps-then,
)
