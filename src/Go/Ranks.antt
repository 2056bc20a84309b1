-- ===== src/Go/Ranks.antt =====
-- The order of the calls of a run: calls have a rank or none, and the ranks of the calls since a given
-- moment rise strictly, so that a call of a rank is made once at most.
use cluster_api_provider_cce.Prelude.{
  ℕ, suc, ◌<◌, ◌≤◌, String, ◌≡◌, refl, ap, Bool, true, false, Option, none, some, List, [], ◌∷◌,
  ◌++◌, arith,
}
use cluster_api_provider_cce.Errors.{Error, Result}
use cluster_api_provider_cce.Go.{
  State, M, Outcome, ret, fail, panic, pure, raise, call, emit, sample, modify, catch, wrap,
  recover, when, if◌then◌else◌, continue, ◌>>=◌,
}
use cluster_api_provider_cce.Go.Keeps.{Keeps, Keeps-call, Keeps-sample, Keeps-emit, Keeps-modify}

abbrev pub RankedBy : Option ℕ → ℕ → (ℕ → Type 0) → Type 0
RankedBy none n rest = rest n
RankedBy (some r) n rest = (r < n) × rest r

RankedBy-mono :
    (o : Option ℕ) (P : ℕ → Type 0) (n m : ℕ)
    → ((a b : ℕ) → a ≤ b → P a → P b)
    → n ≤ m
    → RankedBy o n P
    → RankedBy o m P
RankedBy-mono none P n m mono l p = mono n m l p
RankedBy-mono (some r) P n m mono l (h, p) = (omega arith, p)

module _ {E : Type 0} (rank : E → Option ℕ) where
  -- The ranks of the calls, the newest first, fall strictly, and are all below `n`.
  pub Ranked : ℕ → List E → Type 0
  Ranked n [] = Unit {0}
  Ranked n (c ∷ cs) = RankedBy (rank c) n (λ m. Ranked m cs)

  Ranked-mono : (cs : List E) (n m : ℕ) → n ≤ m → Ranked n cs → Ranked m cs
  unfolding Ranked
  Ranked-mono [] n m l h = tt
  Ranked-mono (c ∷ cs) n m l h = RankedBy-mono (rank c) (λ k. Ranked k cs) n m (Ranked-mono cs) l h

  -- The calls since `before` are ranked below `n`.
  pub record Upto {W O : Type 0} (before : List E) (n : ℕ) (s : State W E O) : Type 0 where
    pub calls : List E
    pub trace_eq : s.trace ≡ calls ++ before
    pub ranked : Ranked n calls

  -- From ranks below `n` to ranks below `m`, whether the action returns, fails or panics.
  pub record Goes {W O A : Type 0} (before : List E) (n m : ℕ) (a : M W E O A) : Type 0 where
    pub at : (s : State W E O) → Upto before n s → Upto before m (a s).1

module _ {E : Type 0} {rank : E → Option ℕ} where
  module _ {W O : Type 0} {before : List E} where
    pub Upto_mono :
        (n m : ℕ) → n ≤ m → (s : State W E O) → Upto rank before n s → Upto rank before m s
    Upto_mono n m l s h = record {
      calls = h.calls;
      trace_eq = h.trace_eq;
      ranked = Ranked-mono rank h.calls n m l h.ranked;
    }

    pub Upto-start : (s : State W E O) → s.trace ≡ before → Upto rank before 0 s
    unfolding Ranked
    Upto-start s e = record { calls = []; trace_eq = e; ranked = tt }

    Upto-quiet :
        (n : ℕ) (c : E) (s s' : State W E O)
        → rank c ≡ none
        → s'.trace ≡ c ∷ s.trace
        → Upto rank before n s
        → Upto rank before n s'
    unfolding Ranked
    Upto-quiet n c s s' q e h = record {
      calls = c ∷ h.calls;
      trace_eq = rw e (ap (λ t. c ∷ t) h.trace_eq);
      ranked = rw q h.ranked;
    }

    Upto-ranked :
        (n r : ℕ) (c : E) (s s' : State W E O)
        → rank c ≡ some r
        → n ≤ r
        → s'.trace ≡ c ∷ s.trace
        → Upto rank before n s
        → Upto rank before (suc r) s'
    unfolding Ranked
    Upto-ranked n r c s s' q l e h = record {
      calls = c ∷ h.calls;
      trace_eq = rw e (ap (λ t. c ∷ t) h.trace_eq);
      ranked = rw q (omega arith, Ranked-mono rank h.calls n r l h.ranked);
    }

    module _ {A : Type 0} where
      pub Upto-call :
          (n : ℕ) (c : E) (f : W → Result A × W)
          → rank c ≡ none
          → Keeps {O = O} (Upto rank before n) (call c f)
      Upto-call n c f q = Keeps-call c f (λ s w h. Upto-quiet n c s _ q refl h)

    pub Upto-sample :
        {A : Type 0} (n : ℕ) (f : W → A × W) → Keeps (Upto rank before n) (sample {O = O} f)
    Upto-sample n f =
        Keeps-sample f
          (λ s w h. record { calls = h.calls; trace_eq = h.trace_eq; ranked = h.ranked })

    pub Upto-emit :
        (n : ℕ) (c : E) → rank c ≡ none → Keeps {W = W} {O = O} (Upto rank before n) (emit c)
    Upto-emit n c q = Keeps-emit c (λ s h. Upto-quiet n c s _ q refl h)

    pub Upto-modify : (n : ℕ) (f : O → O) → Keeps {W = W} (Upto rank before n) (modify f)
    Upto-modify n f =
        Keeps-modify f (λ s h. record { calls = h.calls; trace_eq = h.trace_eq; ranked = h.ranked })

    module _ {A : Type 0} where
      pub Goes-keep :
          (n : ℕ) {a : M W E O A} → Keeps (Upto rank before n) a → Goes rank before n n a
      Goes-keep n k = record { at = λ s h. k.at s h }

      pub Goes-from :
          (n k m : ℕ) {a : M W E O A} → Goes rank before n k a → k ≤ m → Goes rank before n m a
      Goes-from n k m g l = record { at = λ s h. Upto_mono k m l _ (g.at s h) }

      pub Goes-call :
          (n r : ℕ) (c : E) (f : W → Result A × W)
          → rank c ≡ some r
          → n ≤ r
          → Goes rank before n (suc r) (call {O = O} c f)
      unfolding call
      Goes-call n r c f q l = record { at = λ s h. Upto-ranked n r c s _ q l refl h }

      recover-Upto :
          (k j : ℕ) (r : Outcome A) (h : Error → M W E O A) (s : State W E O)
          → ((e : Error) → Goes rank before k j (h e))
          → k ≤ j
          → Upto rank before k s
          → Upto rank before j (recover r h s).1
      recover-Upto k j (ret a) h s g l u = Upto_mono k j l s u
      recover-Upto k j (fail e) h s g l u = (g e).at s u
      recover-Upto k j panic h s g l u = Upto_mono k j l s u

      pub Goes-catch :
          (n k j : ℕ) (a : M W E O A) (h : Error → M W E O A)
          → Goes rank before n k a
          → ((e : Error) → Goes rank before k j (h e))
          → k ≤ j
          → Goes rank before n j (catch a h)
      unfolding catch
      Goes-catch n k j a h ga gh l = record {
        at = λ s u. recover-Upto k j (a s).0 h (a s).1 gh l (ga.at s u);
      }

      pub Goes-wrap :
          (n m : ℕ) (msg : String) (a : M W E O A)
          → Goes rank before n m a
          → Goes rank before n m (wrap msg a)
      unfolding wrap raise
      Goes-wrap n m msg a g = Goes-catch n m m a _ g (λ e. record { at = λ s u. u }) (omega arith)

    pub Goes-if :
        {A : Type 0} (n m : ℕ) (b : Bool) (a a' : M W E O A)
        → Goes rank before n m a
        → Goes rank before n m a'
        → Goes rank before n m (if b then a else a')
    unfolding if◌then◌else◌
    Goes-if n m true a a' g g' = g
    Goes-if n m false a a' g g' = g'

    pub Goes-when :
        (n m : ℕ) (b : Bool) (a : M W E O (Unit {0}))
        → Goes rank before n m a
        → n ≤ m
        → Goes rank before n m (when b a)
    unfolding when pure
    Goes-when n m true a g l = g
    Goes-when n m false a g l = record { at = λ s u. Upto_mono n m l s u }

    module _ {A B : Type 0} where
      continue-Upto :
          (k j : ℕ) (r : Outcome A) (f : A → M W E O B) (s : State W E O)
          → ((a : A) → Goes rank before k j (f a))
          → k ≤ j
          → Upto rank before k s
          → Upto rank before j (continue r f s).1
      continue-Upto k j (ret a) f s g l u = (g a).at s u
      continue-Upto k j (fail e) f s g l u = Upto_mono k j l s u
      continue-Upto k j panic f s g l u = Upto_mono k j l s u

      pub Goes-bind :
          (n k j : ℕ) {m : M W E O A} {f : A → M W E O B}
          → Goes rank before n k m
          → ((a : A) → Goes rank before k j (f a))
          → k ≤ j
          → Goes rank before n j (m >>= f)
      unfolding ◌>>=◌
      Goes-bind n k j {m = m} {f = f} gm gf l = record {
        at = λ s u. continue-Upto k j (m s).0 f (m s).1 gf l (gm.at s u);
      }

      -- A part that keeps the ranks, and then another; and the other way round.
      pub Goes-after :
          (n m : ℕ) {a : M W E O A} {f : A → M W E O B}
          → Keeps (Upto rank before n) a
          → n ≤ m
          → ((x : A) → Goes rank before n m (f x))
          → Goes rank before n m (a >>= f)
      Goes-after n m k l g = Goes-bind n n m (Goes-keep n k) g l

      pub Goes-before :
          (n m : ℕ) {a : M W E O A} {f : A → M W E O B}
          → Goes rank before n m a
          → ((x : A) → Keeps (Upto rank before m) (f x))
          → Goes rank before n m (a >>= f)
      Goes-before n m g k = Goes-bind n m m g (λ x. Goes-keep m (k x)) (omega arith)

      -- What follows an action that ends below `k`.
      pub run-after :
          (k j : ℕ) (m : M W E O A) (f : A → M W E O B) (s : State W E O)
          → Upto rank before k (m s).1
          → ((x : A) → Goes rank before k j (f x))
          → k ≤ j
          → Upto rank before j ((m >>= f) s).1
      unfolding ◌>>=◌
      run-after k j m f s u g l = continue-Upto k j (m s).0 f (m s).1 g l u
