-- ===== src/Memory/Isolation.antt =====
-- A value and its deep copy, and writes through either.
use cluster_api_provider_cce.Prelude.{ℕ, ◌≤◌, ◌<◌, ◌≡◌, refl, ◌∙◌, List, [], ◌∷◌, length, arith}
use cluster_api_provider_cce.Memory.{at, store, Mem, at-bound, at-store}
use cluster_api_provider_cce.Memory.Copies.{Copied, Agree, Grows}

module _ {X : Type 0} where
  -- Writes, one after the other.
  abbrev pub stores : List (ℕ × X) → List X → List X
  stores [] h = h
  stores ((p, x) ∷ ws) h = stores ws (store p x h)

  abbrev pub Below : ℕ → List (ℕ × X) → Type 0
  Below n [] = Unit {0}
  Below n ((p, x) ∷ ws) = (p < n) × Below n ws

  abbrev pub From : ℕ → List (ℕ × X) → Type 0
  From n [] = Unit {0}
  From n ((p, x) ∷ ws) = (n ≤ p) × From n ws

  at-stores-Below :
      (n p : ℕ) (ws : List (ℕ × X)) (h : List X) → n ≤ p → Below n ws → at p (stores ws h) ≡ at p h
  at-stores-Below n p [] h l b = refl
  at-stores-Below n p ((q, x) ∷ ws) h l (b, bs) =
      at-stores-Below n p ws (store q x h) l bs ∙ at-store p q h x (λ e. omega arith)

  at-stores-From :
      (n p : ℕ) (ws : List (ℕ × X)) (h : List X) → p < n → From n ws → at p (stores ws h) ≡ at p h
  at-stores-From n p [] h l b = refl
  at-stores-From n p ((q, x) ∷ ws) h l (b, bs) =
      at-stores-From n p ws (store q x h) l bs ∙ at-store p q h x (λ e. omega arith)

  Below-Agree : (n : ℕ) (ws : List (ℕ × X)) (h : List X) → Below n ws → Agree n h (stores ws h)
  Below-Agree n ws h b p x l e = at-stores-Below n p ws h l b ∙ e

  From-Agree :
      (l : ℕ) (ws : List (ℕ × X)) (h k : List X)
      → Grows h k
      → From (length h) ws
      → Agree l h (stores ws k)
  From-Agree l ws h k (g, n) b p x q e =
      at-stores-From (length h) p ws k (at-bound p h x e) b ∙ g p x (omega arith) e

module _ {X A V : Type 0} (K : Copied X A V) where
  -- Where `a` stands for `v`, so does its copy. Whatever is written afterwards to the cells that were
  -- there before, the copy stands for `v`; whatever is written to the others, `a` does.
  abbrev pub Isolates : (A → Mem X A) → Type 0
  Isolates copy =
      (l : ℕ) (h : List X) (a : A) (v : V) (ws : List (ℕ × X))
      → K.Reads l h a v
      → (Below (length h) ws → K.Reads (length h) (stores ws (copy a h).1) (copy a h).0 v)
        × (From (length h) ws → K.Reads l (stores ws (copy a h).1) a v)

  pub copy-Isolates : Isolates K.copy
  copy-Isolates l h a v ws r = (
    (λ b.
        K.Reads-frame (length h) (K.copy a h).1 _ _ v (Below-Agree (length h) ws _ b)
          (K.copy-Reads l h a v r)),
    (λ b. K.Reads-frame l h _ a v (From-Agree l ws h _ (K.copy-Grows a h) b) r),
  )
