-- ===== src/Go/Gives.antt =====
-- What holds where an action returns: one rule for each way to build an action. What happens where it
-- fails or panics is left open.
use cluster_api_provider_cce.Prelude.{
  ◌≡◌, refl, sym, Bool, true, false, Option, none, some, ◌∷◌, String,
}
use cluster_api_provider_cce.Errors.{Error, Result, ok, err}
use cluster_api_provider_cce.Go.{
  State, M, Outcome, ret, fail, panic, of_result, pure, raise, crash, deref, call, get_obj, modify,
  catch, wrap, recover, continue, ◌>>=◌, when, if◌then◌else◌,
}
use cluster_api_provider_cce.Go.Keeps.{Keeps}

-- Run where `P` holds, `m` leaves `K` of its value and of the state behind if it returns.
pub record Gives {W E O A : Type 0} (P : State W E O → Type 0) (K : A → State W E O → Type 0)
    (m : M W E O A) : Type 0 where
  pub at : (s : State W E O) → P s → (a : A) → (m s).0 ≡ ret a → K a (m s).1

-- Nothing is asked.
abbrev pub Any : {W E O : Type 0} → State W E O → Type 0
Any s = Unit {0}

module _ {W E O A : Type 0} (K : A → State W E O → Type 0) where
  by_value : (b a : A) (s : State W E O) → K b s → Path (Outcome A) (ret b) (ret a) → K a s
  by_value b a s k e = let p : b ≡ a = cc in rw (sym p) k

  by_result :
      (r : Result A) (a : A) (s : State W E O)
      → ((b : A) → r ≡ ok b → K b s)
      → of_result r ≡ ret a
      → K a s
  by_result (ok b) a s k e = by_value b a s (k b refl) e
  by_result (err x) a s k e = cc

module _ {W E O A : Type 0} (P : State W E O → Type 0) (K : A → State W E O → Type 0) where
  by_recovery :
      (r : Outcome A) (h : Error → M W E O A) (s : State W E O)
      → ((b : A) → r ≡ ret b → K b s)
      → ((e : Error) → Gives P K (h e))
      → P s
      → (a : A) → (recover r h s).0 ≡ ret a
      → K a (recover r h s).1
  by_recovery (ret b) h s k g p a e = by_value K b a s (k b refl) e
  by_recovery (fail x) h s k g p a e = (g x).at s p a e
  by_recovery panic h s k g p a e = cc

module _ {W E O A : Type 0} {P : State W E O → Type 0} {K : A → State W E O → Type 0} where
  pub Gives-pure : (b : A) → ((s : State W E O) → P s → K b s) → Gives P K (pure b)
  unfolding pure
  Gives-pure b k = record { at = λ s p a e. by_value K b a s (k s p) e }

  pub Gives-raise : (x : Error) → Gives P K (raise x)
  unfolding raise
  Gives-raise x = record { at = λ s p a e. cc }

  pub Gives-if :
      (b : Bool) (m n : M W E O A)
      → (b ≡ true → Gives P K m)
      → (b ≡ false → Gives P K n)
      → Gives P K (if b then m else n)
  unfolding if◌then◌else◌
  Gives-if true m n gm gn = gm refl
  Gives-if false m n gm gn = gn refl

  -- What holds at the start may be used in the proof.
  pub Gives-holding : (m : M W E O A) → ((s : State W E O) → P s → Gives Any K m) → Gives P K m
  Gives-holding m g = record { at = λ s p a e. (g s p).at s tt a e }

  pub Gives-crash : Gives P K crash
  unfolding crash
  Gives-crash = record { at = λ s p a e. cc }

  pub Gives-deref :
      (o : Option A) → ((a : A) (s : State W E O) → o ≡ some a → P s → K a s) → Gives P K (deref o)
  unfolding deref
  Gives-deref none k = record { at = λ s p a e. cc }
  Gives-deref (some b) k = record { at = λ s p a e. by_value K b a s (k b s refl p) e }

  pub Gives-call :
      (c : E) (f : W → Result A × W)
      → ((s : State W E O) (a : A)
          → P s
          → (f s.world).0 ≡ ok a
          → K a (record s { world = (f s.world).1; trace = c ∷ s.trace }))
      → Gives P K (call c f)
  unfolding call
  Gives-call c f k = record { at = λ s p a e. by_result K (f s.world).0 a _ (λ b h. k s b p h) e }

  -- The value of an action, and what it keeps.
  pub Gives-keeping : (m : M W E O A) → Keeps P m → Gives Any K m → Gives P (λ a s. P s × K a s) m
  Gives-keeping m k g = record { at = λ s p a e. (k.at s p, g.at s tt a e) }

  pub Gives-catch :
      (m : M W E O A) (h : Error → M W E O A)
      → Keeps P m
      → Gives P K m
      → ((e : Error) → Gives P K (h e))
      → Gives P K (catch m h)
  unfolding catch
  Gives-catch m h km g gh = record {
    at = λ s p a e. by_recovery P K (m s).0 h (m s).1 (λ b q. g.at s p b q) gh (km.at s p) a e;
  }

module _ {W E O A : Type 0} {P : State W E O → Type 0} {K : A → State W E O → Type 0} where
  pub Gives-wrap : (msg : String) (m : M W E O A) → Gives P K m → Gives P K (wrap msg m)
  unfolding wrap catch
  Gives-wrap msg m g = record {
    at = λ s p a e.
        by_recovery Any K (m s).0 _ (m s).1 (λ b q. g.at s p b q) (λ x. Gives-raise _) tt a e;
  }

module _ {W E O A : Type 0} {P : State W E O → Type 0} where
  pub Gives-kept :
      {Q : State W E O → Type 0} (m : M W E O A)
      → ((s : State W E O) → P s → Q s)
      → Keeps Q m
      → Gives P (λ a. Q) m
  Gives-kept m q k = record { at = λ s p a e. k.at s (q s p) }

  pub Gives-Any : (m : M W E O A) → Gives P (λ a. Any) m
  Gives-Any m = record { at = λ s p a e. tt }

module _ {W E O : Type 0} {P : State W E O → Type 0} where
  pub Gives-get_obj :
      {K : O → State W E O → Type 0} → ((s : State W E O) → P s → K s.obj s) → Gives P K get_obj
  unfolding get_obj
  Gives-get_obj {K = K} k = record { at = λ s p a e. by_value K s.obj a s (k s p) e }

  pub Gives-modify :
      {K : Unit {0} → State W E O → Type 0} (f : O → O)
      → ((s : State W E O) → P s → K tt (record s { obj = f s.obj }))
      → Gives P K (modify f)
  unfolding modify
  Gives-modify f k = record { at = λ s p a e. k s p }

  pub Gives-when :
      {K : Unit {0} → State W E O → Type 0} (b : Bool) (m : M W E O (Unit {0}))
      → (b ≡ true → Gives P K m)
      → ((s : State W E O) → b ≡ false → P s → K tt s)
      → Gives P K (when b m)
  unfolding when
  Gives-when true m g k = g refl
  Gives-when false m g k = Gives-pure tt (λ s p. k s refl p)

module _ {W E O A B : Type 0} (K : A → State W E O → Type 0) (L : B → State W E O → Type 0) where
  by_step :
      (r : Outcome A) (t : State W E O) (f : A → M W E O B)
      → ((a : A) → r ≡ ret a → K a t)
      → ((a : A) → Gives (K a) L (f a))
      → (b : B) → (continue r f t).0 ≡ ret b
      → L b (continue r f t).1
  by_step (ret a) t f k g b e = (g a).at t (k a refl) b e
  by_step (fail x) t f k g b e = cc
  by_step panic t f k g b e = cc

module _ {W E O A B : Type 0} {P : State W E O → Type 0} {K : A → State W E O → Type 0}
    {L : B → State W E O → Type 0} where
  pub Gives-bind :
      (m : M W E O A) (f : A → M W E O B)
      → Gives P K m
      → ((a : A) → Gives (K a) L (f a))
      → Gives P L (m >>= f)
  unfolding ◌>>=◌
  Gives-bind m f g h = record {
    at = λ s p b e. by_step K L (m s).0 (m s).1 f (λ a q. g.at s p a q) h b e;
  }
