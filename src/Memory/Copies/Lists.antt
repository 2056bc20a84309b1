-- ===== src/Memory/Copies/Lists.antt =====
-- Slices and maps of what can be copied.
use cluster_api_provider_cce.Prelude.{ℕ, ◌≤◌, List, [], ◌∷◌, length, arith}
use cluster_api_provider_cce.Memory.Copies.{
  Agree, Grows, Grows-refl, Grows-trans, Grows-from, Copied, copy_all,
}

module _ {X A V : Type 0} (K : Copied X A V) where
  abbrev pub Lists : ℕ → List X → List A → List V → Type 0
  Lists l h [] [] = Unit {0}
  Lists l h (a ∷ al) (v ∷ vl) = K.Reads l h a v × Lists l h al vl
  Lists l h [] (v ∷ vl) = ⊥
  Lists l h (a ∷ al) [] = ⊥

  pub Lists-mono :
      (l m : ℕ) (h : List X) (al : List A) (vl : List V) → m ≤ l → Lists l h al vl → Lists m h al vl
  Lists-mono l m h [] [] q r = tt
  Lists-mono l m h (a ∷ al) (v ∷ vl) q (r, rs) =
      (K.Reads-mono l m h a v q r, Lists-mono l m h al vl q rs)
  Lists-mono l m h [] (v ∷ vl) q r = absurd r
  Lists-mono l m h (a ∷ al) [] q r = absurd r

  pub Lists-frame :
      (l : ℕ) (h k : List X) (al : List A) (vl : List V)
      → Agree l h k
      → Lists l h al vl
      → Lists l k al vl
  Lists-frame l h k [] [] g r = tt
  Lists-frame l h k (a ∷ al) (v ∷ vl) g (r, rs) =
      (K.Reads-frame l h k a v g r, Lists-frame l h k al vl g rs)
  Lists-frame l h k [] (v ∷ vl) g r = absurd r
  Lists-frame l h k (a ∷ al) [] g r = absurd r

  pub copy_all-Grows : (al : List A) (h : List X) → Grows h (copy_all K.copy al h).1
  unfolding copy_all
  copy_all-Grows [] h = Grows-refl h
  copy_all-Grows (a ∷ al) h =
      Grows-trans h (K.copy a h).1 _ (K.copy-Grows a h) (copy_all-Grows al (K.copy a h).1)

  pub copy_all-Lists :
      (l : ℕ) (h : List X) (al : List A) (vl : List V)
      → Lists l h al vl
      → Lists (length h) (copy_all K.copy al h).1 (copy_all K.copy al h).0 vl
  unfolding copy_all
  copy_all-Lists l h [] [] r = tt
  copy_all-Lists l h (a ∷ al) (v ∷ vl) (r, rs) =
      let k = (K.copy a h).1 in
      let (g, n) = K.copy-Grows a h in
      let kept = Lists-frame l h k al vl (λ p x q e. g p x (omega arith) e) rs in
      let copied = copy_all-Lists l k al vl kept in
      let grown = copy_all-Grows al k in
      (
        K.Reads-frame (length h) k _ _ v (Grows-from (length h) k _ grown) (K.copy-Reads l h a v r),
        Lists-mono (length k) (length h) _ _ vl n copied,
      )
  copy_all-Lists l h [] (v ∷ vl) r = absurd r
  copy_all-Lists l h (a ∷ al) [] r = absurd r

  abbrev pub list : Copied X (List A) (List V)
  list = record {
    Reads = Lists;
    copy = copy_all K.copy;
    Reads-mono = Lists-mono;
    Reads-frame = Lists-frame;
    copy-Grows = copy_all-Grows;
    copy-Reads = copy_all-Lists;
  }
