-- ===== src/Memory/Copies/Structs.antt =====
-- Structs of what can be copied.
use cluster_api_provider_cce.Prelude.{ℕ, ◌≡◌, List, length}
use cluster_api_provider_cce.Memory.{Mem}
use cluster_api_provider_cce.Memory.Copies.{Grows, Grows-trans, Grows-from, Copied}

module _ {X A V B W : Type 0} (K : Copied X A V) (L : Copied X B W) where
  -- The fields of a struct, one after the other.
  abbrev pub copy_both : A × B → Mem X (A × B)
  copy_both (a, b) h = let (a', h') = K.copy a h in let (b', h'') = L.copy b h' in ((a', b'), h'')

  abbrev pub both : Copied X (A × B) (V × W)
  both = record {
    Reads = λ l h a v. K.Reads l h a.0 v.0 × L.Reads l h a.1 v.1;
    copy = copy_both;
    Reads-mono =
        λ l m h a v q r. (K.Reads-mono l m h a.0 v.0 q r.0, L.Reads-mono l m h a.1 v.1 q r.1);
    Reads-frame =
        λ l h k a v g r. (K.Reads-frame l h k a.0 v.0 g r.0, L.Reads-frame l h k a.1 v.1 g r.1);
    copy-Grows = λ a h. Grows-trans h (K.copy a.0 h).1 _ (K.copy-Grows a.0 h) (L.copy-Grows a.1 _);
    copy-Reads = λ l h a v r.
        let k = (K.copy a.0 h).1 in
        let (g, n) = K.copy-Grows a.0 h in
        let kept = L.Reads-frame l h k a.1 v.1 (Grows-from l h k (g, n)) r.1 in
        let copied = L.copy-Reads l k a.1 v.1 kept in
        (
          K.Reads-frame (length h) k _ _ v.0 (Grows-from (length h) k _ (L.copy-Grows a.1 k))
              (K.copy-Reads l h a.0 v.0 r.0),
          L.Reads-mono (length k) (length h) _ _ v.1 n copied,
        );
  }

-- An action on structs that copies their fields as `K` does.
abbrev pub Fieldwise :
    {X A V S : Type 0} → Copied X A V → (S → A) → (A → S) → (S → Mem X S) → Type 0
Fieldwise {X = X} {S = S} K to from into =
    (s : S) (h : List X) → into s h ≡ (from (K.copy (to s) h).0, (K.copy (to s) h).1)

-- A struct whose fields are copied as the components of `K` are.
module _ {X A V S T : Type 0} (K : Copied X A V) (to : S → A) (from : A → S) (value : T → V)
    (into : S → Mem X S) (to-from : (a : A) → to (from a) ≡ a)
    (is_same : Fieldwise K to from into) where
  pub struct-Reads :
      (l : ℕ) (h : List X) (s : S) (t : T)
      → K.Reads l h (to s) (value t)
      → K.Reads (length h) (into s h).1 (to (into s h).0) (value t)
  struct-Reads l h s t r = rw (is_same s h, to-from) (K.copy-Reads l h (to s) (value t) r)

  pub struct-Grows : (s : S) (h : List X) → Grows h (into s h).1
  struct-Grows s h = rw (is_same s h) (K.copy-Grows (to s) h)

  abbrev pub struct : Copied X S T
  struct = record {
    Reads = λ l h s t. K.Reads l h (to s) (value t);
    copy = into;
    Reads-mono = λ l m h s t q r. K.Reads-mono l m h (to s) (value t) q r;
    Reads-frame = λ l h k s t g r. K.Reads-frame l h k (to s) (value t) g r;
    copy-Grows = struct-Grows;
    copy-Reads = struct-Reads;
  }
