-- ===== src/Memory/Copies.antt =====
-- Deep copies: what a value in memory stands for, and copying that shares nothing with the original.
pub mod Pointers
pub mod Lists
pub mod Structs
use cluster_api_provider_cce.Prelude.{
  ℕ, ◌≤◌, ◌≡◌, ap, ◌∙◌, Option, none, some, List, [], ◌∷◌, ◌++◌, length, arith,
}
use cluster_api_provider_cce.Memory.{Pointer, at, Mem, alloc, at-snoc, length-snoc, at-append, pure}

module _ {X : Type 0} where
  -- Every cell of `h` from `lo` on is the same in `k`.
  abbrev pub Agree : ℕ → List X → List X → Type 0
  Agree lo h k = (p : ℕ) (x : X) → lo ≤ p → at p h ≡ some x → at p k ≡ some x

  abbrev pub Grows : List X → List X → Type 0
  Grows h k = Agree 0 h k × (length h ≤ length k)

  pub Grows-refl : (h : List X) → Grows h h
  Grows-refl h = ((λ p x l e. e), omega arith)

  pub Grows-trans : (h k m : List X) → Grows h k → Grows k m → Grows h m
  Grows-trans h k m (a, l) (b, n) = ((λ p x q e. b p x (omega arith) (a p x q e)), omega arith)

  pub Grows-from : (lo : ℕ) (h k : List X) → Grows h k → Agree lo h k
  Grows-from lo h k (a, l) p x q e = a p x (omega arith) e

  pub alloc-Grows : (x : X) (h : List X) → Grows h (h ++ (x ∷ []))
  alloc-Grows x h =
      let n = length-snoc h x in ((λ p y l e. at-append p h (x ∷ []) y e), omega arith)

-- How the values of the type `A` are copied, and which value of `V` they stand for.
pub record Copied (X A V : Type 0) : Type 1 where
  -- `a` stands for `v` in the memory `h`, and only cells from the address `lo` on matter.
  pub Reads : ℕ → List X → A → V → Type 0
  pub copy : A → Mem X A
  pub Reads-mono : (l m : ℕ) (h : List X) (a : A) (v : V) → m ≤ l → Reads l h a v → Reads m h a v
  pub Reads-frame :
      (l : ℕ) (h k : List X) (a : A) (v : V) → Agree l h k → Reads l h a v → Reads l k a v
  pub copy-Grows : (a : A) (h : List X) → Grows h (copy a h).1
  -- The copy stands for the same value, in cells that are new.
  pub copy-Reads :
      (l : ℕ) (h : List X) (a : A) (v : V)
      → Reads l h a v
      → Reads (length h) (copy a h).1 (copy a h).0 v

module _ {X : Type 0} where
  -- A value without pointers: `*out = *in`.
  abbrev pub plain : (A : Type 0) → Copied X A A
  plain A = record {
    Reads = λ l h a v. a ≡ v;
    copy = pure;
    Reads-mono = λ l m h a v q r. r;
    Reads-frame = λ l h k a v g r. r;
    copy-Grows = λ a h. Grows-refl h;
    copy-Reads = λ l h a v r. r;
  }

-- A type whose values a cell can hold.
pub record Kind (X A : Type 0) : Type 0 where
  pub box : A → X
  pub unbox : X → Option A
  pub unbox-box : (a : A) → unbox (box a) ≡ some a

module _ {X A : Type 0} (kind : Kind X A) (into : A → Mem X A) where
  abbrev pub unboxed : Option X → Option A
  unboxed none = none
  unboxed (some x) = kind.unbox x

  abbrev pub load : ℕ → List X → Option A
  load p h = unboxed (at p h)

  pub load-box : (p : ℕ) (h : List X) (a : A) → at p h ≡ some (kind.box a) → load p h ≡ some a
  load-box p h a e = ap unboxed e ∙ kind.unbox-box a

  abbrev pub copy_loaded : Option A → Mem X Pointer
  copy_loaded none h = (none, h)
  copy_loaded (some a) h =
      let (a', h') = into a h in let (p, h'') = alloc (kind.box a') h' in (some p, h'')

  -- `if in != nil { *out = new(T); in.DeepCopyInto(*out) }`. The new cell is allocated with its contents,
  -- after those of the cells that it points to. There are no dangling pointers in Go: one would be
  -- copied as nil.
  unfoldable pub new_copy : Pointer → Mem X Pointer
  new_copy none h = (none, h)
  new_copy (some p) h = copy_loaded (load p h) h

-- `for i := range *in { (*in)[i].DeepCopyInto(&(*out)[i]) }`
unfoldable pub copy_all : {X A : Type 0} → (A → Mem X A) → List A → Mem X (List A)
copy_all into [] h = ([], h)
copy_all into (a ∷ al) h =
    let (a', h') = into a h in let (al', h'') = copy_all into al h' in (a' ∷ al', h'')
