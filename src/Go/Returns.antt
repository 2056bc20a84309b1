-- ===== src/Go/Returns.antt =====
-- What an action leaves behind, by whether it returns.
use cluster_api_provider_cce.Prelude.{String, ◌≡◌, refl}
use cluster_api_provider_cce.Go.{wrap, catch, State, M, Outcome, ret, fail, panic, continue, ◌>>=◌}
use cluster_api_provider_cce.Go.Keeps.{Keeps}

-- Where an action returns, its value and the object satisfy `K`; where it fails or panics, the
-- object satisfies `Q`.
abbrev pub Returns :
    {W E O A : Type 0} → (A → O → Type 0) → (O → Type 0) → Outcome A × State W E O → Type 0
Returns K Q (ret a, s) = K a s.obj
Returns K Q (fail e, s) = Q s.obj
Returns K Q (panic, s) = Q s.obj

module _ {W E O A B : Type 0} (K : B → O → Type 0) (Q : O → Type 0) where
  continue-Returns :
      (r : Outcome A) (t : State W E O) (f : A → M W E O B)
      → ((a : A) (s : State W E O) → Q s.obj → Returns K Q (f a s))
      → Q t.obj
      → Returns K Q (continue r f t)
  continue-Returns (ret a) t f kf q = kf a t q
  continue-Returns (fail x) t f kf q = q
  continue-Returns panic t f kf q = q

  -- An action that keeps `Q`, and then another.
  pub then-Returns :
      (m : M W E O A) (f : A → M W E O B)
      → Keeps (λ s. Q s.obj) m
      → ((a : A) (s : State W E O) → Q s.obj → Returns K Q (f a s))
      → (s : State W E O) → Q s.obj
      → Returns K Q ((m >>= f) s)
  unfolding ◌>>=◌
  then-Returns m f km kf s q = continue-Returns (m s).0 (m s).1 f kf (km.at s q)

module _ {W E O A B : Type 0} (P : State W E O → Type 0) where
  continue-after :
      (r : Outcome A) (t : State W E O) (f : A → M W E O B)
      → ((a : A) → Keeps P (f a))
      → P t
      → P (continue r f t).1
  continue-after (ret a) t f kf p = (kf a).at t p
  continue-after (fail x) t f kf p = p
  continue-after panic t f kf p = p

  -- What an action establishes, whether it returns or not, and what follows keeps.
  pub bind-after :
      (m : M W E O A) (f : A → M W E O B) (s : State W E O)
      → ((a : A) → Keeps P (f a))
      → P (m s).1
      → P ((m >>= f) s).1
  unfolding ◌>>=◌
  bind-after m f s kf p = continue-after (m s).0 (m s).1 f kf p

module _ {W E O A : Type 0} where
  -- Wrapping the error of an action that returns changes nothing.
  pub wrap-ret :
      (msg : String) (m : M W E O A) (s : State W E O) (a : A)
      → (m s).0 ≡ ret a
      → (wrap msg m s).0 ≡ ret a
  unfolding wrap catch
  wrap-ret msg m s a h = rw h refl

-- What follows an action that returns runs from where it left off.
pub bind-ret :
    {W E O A B : Type 0} (m : M W E O A) (f : A → M W E O B) (s : State W E O) (a : A)
    → (m s).0 ≡ ret a
    → (m >>= f) s ≡ f a (m s).1
unfolding ◌>>=◌
bind-ret m f s a h = rw h refl
