-- ===== src/Tests/World.antt =====
-- A small world: conditions as an association list, and clients that answer by the number of calls
-- so far.
use cluster_api_provider_cce.Prelude.{
  String, ◌≡◌, ◌≢◌, refl, ap, ◌∙◌, Bool, true, false, ◌||◌, Option, none, some, List, [], ◌∷◌, ◌==◌,
  lookup, insert, lookup-insert, get_or, if◌then◌else◌, eq_self, eq_iff, arith, Bool-cases, inl,
  inr,
}
use cluster_api_provider_cce.Env.{Conditions, Finalizers}

abbrev pub Marks : Type 0
Marks = List (String × Bool)

abbrev pub is_some : Option Bool → Bool
is_some none = false
is_some (some b) = true

value_if :
    (b v : Bool) (o : Option Bool)
    → get_or false (if b then some v else o) ≡ (if b then v else get_or false o)
value_if true v o = refl
value_if false v o = refl

value_insert :
    (t u : String) (v : Bool) (c : Marks)
    → get_or false (lookup u (insert t v c)) ≡ (if t == u then v else get_or false (lookup u c))
value_insert t u v c = ap (get_or false) (lookup-insert t u v c) ∙ value_if (t == u) v (lookup u c)

pub value_self : (t : String) (v : Bool) (c : Marks) → get_or false (lookup t (insert t v c)) ≡ v
value_self t v c =
    value_insert t t v c ∙ ap (λ b. if b then v else get_or false (lookup t c)) (eq_self t)

differ : (t u : String) → t ≢ u → (t == u) ≡ false
differ t u n = ground (arith, eq_iff t u)

pub value_other :
    (t u : String) (v : Bool) (c : Marks)
    → t ≢ u
    → get_or false (lookup u (insert t v c)) ≡ get_or false (lookup u c)
value_other t u v c n =
    value_insert t u v c ∙ ap (λ b. if b then v else get_or false (lookup u c)) (differ t u n)

pub has_self : (t : String) (v : Bool) (c : Marks) → is_some (lookup t (insert t v c)) ≡ true
has_self t v c =
    ap is_some (lookup-insert t t v c)
    ∙ ap (λ b. is_some (if b then some v else lookup t c)) (eq_self t)

abbrev pub marks : Conditions Marks
marks = record {
  mark_true = λ t c. insert t true c;
  mark_false = λ t r s m c. insert t false c;
  is_true = λ t c. get_or false (lookup t c);
  has = λ t c. is_some (lookup t c);
  set_summary = λ ts c. c;
  is_true-mark_true_self = λ t c. value_self t true c;
  is_true-mark_true_ne = λ t u c n. value_other t u true c n;
  is_true-mark_false_self = λ t r s m c. value_self t false c;
  is_true-mark_false_ne = λ t u r s m c n. value_other t u false c n;
  has-mark_true_self = λ t c. has_self t true c;
  has-mark_false_self = λ t r s m c. has_self t false c;
}

abbrev pub member : String → List String → Bool
member f [] = false
member f (g ∷ l) = g == f || member f l

abbrev pub without : String → List String → List String
without f [] = []
without f (g ∷ l) = if g == f then without f l else g ∷ without f l

abbrev pub with_one : String → List String → List String × Bool
with_one f l = if member f l then (l, false) else (f ∷ l, true)

pub member-with_one : (f : String) (l : List String) → member f (with_one f l).0 ≡ true
member-with_one f l = elim (Bool-cases (member f l)) [
  | inl e ↦ rw (e, e) refl
  | inr e ↦ rw (e, eq_self f) refl
]

pub member-without : (f : String) (l : List String) → member f (without f l) ≡ false
member-without f [] = refl
member-without f (g ∷ l) = elim (Bool-cases (g == f)) [
  | inl e ↦ rw e (member-without f l)
  | inr e ↦ rw (e, e) (member-without f l)
]

abbrev pub finalizer_list : Finalizers
finalizer_list = record {
  add = with_one;
  remove = without;
  contains = member;
  contains-add = member-with_one;
  contains-remove = member-without;
}
