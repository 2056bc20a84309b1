-- ===== src/Memory.antt =====
-- Memory as Go's pointers see it: cells at addresses, of which new ones are added and none is freed.
-- What a cell holds is the type `X`, which the types of a program fix.
pub mod Copies
pub mod Isolation
use cluster_api_provider_cce.Prelude.{
  ℕ, zero, suc, ◌≤◌, ◌<◌, ◌≡◌, ◌≢◌, refl, ap, Option, none, some, List, [], ◌∷◌, ◌++◌, length,
  arith,
}

-- A pointer is nil or the address of a cell. A slice and a map are pointers too, to the cell that
-- holds their elements.
abbrev pub Pointer : Type 0
Pointer = Option ℕ

-- An action on memory.
abbrev pub Mem : Type 0 → Type 0 → Type 0
Mem X A = List X → A × List X

module _ {X : Type 0} where
  abbrev pub at : ℕ → List X → Option X
  at p [] = none
  at zero (x ∷ h) = some x
  at (suc p) (x ∷ h) = at p h

  -- A write to a cell; there is no cell beyond the last one.
  abbrev pub store : ℕ → X → List X → List X
  store p x [] = []
  store zero x (y ∷ h) = x ∷ h
  store (suc p) x (y ∷ h) = y ∷ store p x h

  -- A new cell.
  abbrev pub alloc : X → List X → ℕ × List X
  alloc x h = (length h, h ++ (x ∷ []))

  pub at-snoc : (h : List X) (x : X) → at (length h) (h ++ (x ∷ [])) ≡ some x
  at-snoc [] x = refl
  at-snoc (y ∷ h) x = at-snoc h x

  pub length-snoc : (h : List X) (x : X) → length (h ++ (x ∷ [])) ≡ suc (length h)
  length-snoc [] x = refl
  length-snoc (y ∷ h) x = ap suc (length-snoc h x)

  pub at-append : (p : ℕ) (h k : List X) (x : X) → at p h ≡ some x → at p (h ++ k) ≡ some x
  at-append p [] k x e = cc
  at-append zero (y ∷ h) k x e = e
  at-append (suc p) (y ∷ h) k x e = at-append p h k x e

  pub at-bound : (p : ℕ) (h : List X) (x : X) → at p h ≡ some x → p < length h
  at-bound p [] x e = cc
  at-bound zero (y ∷ h) x e = omega arith
  at-bound (suc p) (y ∷ h) x e = let l = at-bound p h x e in omega arith

  -- A write leaves every other cell as it is.
  pub at-store : (p q : ℕ) (h : List X) (x : X) → p ≢ q → at p (store q x h) ≡ at p h
  at-store p q [] x n = refl
  at-store zero zero (y ∷ h) x n = absurd (n refl)
  at-store zero (suc q) (y ∷ h) x n = refl
  at-store (suc p) zero (y ∷ h) x n = refl
  at-store (suc p) (suc q) (y ∷ h) x n = at-store p q h x (λ e. n (ap suc e))

  pub length-store : (q : ℕ) (h : List X) (x : X) → length (store q x h) ≡ length h
  length-store q [] x = refl
  length-store zero (y ∷ h) x = refl
  length-store (suc q) (y ∷ h) x = ap suc (length-store q h x)

infixl 10 ◌>>=◌
abbrev pub ◌>>=◌ : {X A B : Type 0} → Mem X A → (A → Mem X B) → Mem X B
◌>>=◌ m k h = let (a, h') = m h in k a h'

abbrev pub pure : {X A : Type 0} → A → Mem X A
pure a h = (a, h)
