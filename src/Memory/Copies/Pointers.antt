-- ===== src/Memory/Copies/Pointers.antt =====
-- Pointers to what can be copied.
use cluster_api_provider_cce.Prelude.{
  ℕ, ◌≤◌, ◌≡◌, Option, none, some, List, [], ◌∷◌, ◌++◌, length, arith,
}
use cluster_api_provider_cce.Memory.{Pointer, at, at-snoc}
use cluster_api_provider_cce.Memory.Copies.{
  Agree, Grows, Grows-refl, Grows-trans, alloc-Grows, Copied, Kind, load, load-box, copy_loaded,
  new_copy,
}

module _ {X A V : Type 0} (K : Copied X A V) where
  module _ (kind : Kind X A) where
    abbrev pub Points : ℕ → List X → Pointer → Option V → Type 0
    Points l h none none = Unit {0}
    Points l h (some p) (some v) =
        (l ≤ p) × ((a : A) × ((at p h ≡ some (kind.box a)) × K.Reads l h a v))
    Points l h none (some v) = ⊥
    Points l h (some p) none = ⊥

    pub Points-mono :
        (l m : ℕ) (h : List X) (p : Pointer) (v : Option V)
        → m ≤ l
        → Points l h p v
        → Points m h p v
    Points-mono l m h none none q r = tt
    Points-mono l m h (some p) (some v) q (b, (a, (e, r))) =
        (omega arith, (a, (e, K.Reads-mono l m h a v q r)))
    Points-mono l m h none (some v) q r = absurd r
    Points-mono l m h (some p) none q r = absurd r

    pub Points-frame :
        (l : ℕ) (h k : List X) (p : Pointer) (v : Option V)
        → Agree l h k
        → Points l h p v
        → Points l k p v
    Points-frame l h k none none g r = tt
    Points-frame l h k (some p) (some v) g (b, (a, (e, r))) =
        (b, (a, (g p (kind.box a) b e, K.Reads-frame l h k a v g r)))
    Points-frame l h k none (some v) g r = absurd r
    Points-frame l h k (some p) none g r = absurd r

    loaded-Grows : (o : Option A) (h : List X) → Grows h (copy_loaded kind K.copy o h).1
    loaded-Grows none h = Grows-refl h
    loaded-Grows (some a) h = Grows-trans h (K.copy a h).1 _ (K.copy-Grows a h) (alloc-Grows _ _)

    pub new_copy-Grows : (p : Pointer) (h : List X) → Grows h (new_copy kind K.copy p h).1
    unfolding new_copy
    new_copy-Grows none h = Grows-refl h
    new_copy-Grows (some p) h = loaded-Grows (load kind K.copy p h) h

    loaded-Points :
        (l : ℕ) (h : List X) (a : A) (v : V)
        → K.Reads l h a v
        → Points
            (length h)
            (copy_loaded kind K.copy (some a) h).1
            (copy_loaded kind K.copy (some a) h).0
            (some v)
    loaded-Points l h a v r =
        let (a', k) = K.copy a h in
        let (g, n) = K.copy-Grows a h in
        let (grown, m) = alloc-Grows (kind.box a') k in
        (
          n,
          (
            a',
            (
              at-snoc k (kind.box a'),
              K.Reads-frame (length h) k (k ++ (kind.box a' ∷ [])) a' v
                  (λ p x q e. grown p x (omega arith) e) (K.copy-Reads l h a v r),
            ),
          ),
        )

    pub new_copy-Points :
        (l : ℕ) (h : List X) (p : Pointer) (v : Option V)
        → Points l h p v
        → Points (length h) (new_copy kind K.copy p h).1 (new_copy kind K.copy p h).0 v
    unfolding new_copy
    new_copy-Points l h none none r = tt
    new_copy-Points l h (some p) (some v) (b, (a, (e, r))) =
        rw (load-box kind K.copy p h a e) (loaded-Points l h a v r)
    new_copy-Points l h none (some v) r = absurd r
    new_copy-Points l h (some p) none r = absurd r

    abbrev pub pointer : Copied X Pointer (Option V)
    pointer = record {
      Reads = Points;
      copy = new_copy kind K.copy;
      Reads-mono = Points-mono;
      Reads-frame = Points-frame;
      copy-Grows = new_copy-Grows;
      copy-Reads = new_copy-Points;
    }
