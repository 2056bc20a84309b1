-- ===== src/Controller/Requests/Owners.antt =====
-- The owner that getOwnerMachinePool and GetOwnerClusterKey look for.
use mathlib.Core.Bool.{false≢true}
use cluster_api_provider_cce.Prelude.{
  subst, Bool-cases, inl, inr, String, ◌≡◌, refl, sym, ap, ◌∙◌, true, Option, some, List, [], ◌∷◌,
  ◌==◌, eq_iff, if◌then◌else◌,
}
use cluster_api_provider_cce.Errors.{Result, ok, err}
use cluster_api_provider_cce.Api.Meta.{OwnerReference}
use cluster_api_provider_cce.Controller.Requests.{find_owner, capi_group}

module _ (parse : String → Result String) (kind : String) where
  -- A reference of the kind, in the group of the Cluster API.
  abbrev pub IsOwner : OwnerReference → Type 0
  IsOwner ref = (ref.kind ≡ kind) × (parse ref.api_version ≡ ok capi_group)

  -- `ref` is the first owner: those before it are of another kind or of another group.
  pub data First : List OwnerReference → OwnerReference → Type 0 where
    here :
        {ref : OwnerReference} {refs : List OwnerReference} → IsOwner ref → First (ref ∷ refs) ref
    there :
        {ref other : OwnerReference} {refs : List OwnerReference}
        → ¬ IsOwner other
        → First refs ref
        → First (other ∷ refs) ref

  same_group : {v : String} {g h : String} → parse v ≡ ok g → parse v ≡ ok h → g ≡ h
  same_group p q = cc

  same_owner :
      {r s : OwnerReference}
      → Path (Result (Option OwnerReference)) (ok (some r)) (ok (some s))
      → r ≡ s
  same_owner p = cc

  -- A reference of the kind, by what its version parses to.
  by_group :
      (r : OwnerReference) (refs : List OwnerReference) (ref : OwnerReference)
      → (r.kind == kind) ≡ true
      → (find_owner parse kind refs ≡ ok (some ref) → First refs ref)
      → (p : Result String) → parse r.api_version ≡ p
      → elim p as (λ _. Result (Option OwnerReference)) [
        | err e ↦ err e
        | ok group ↦ if group == capi_group then ok (some r) else find_owner parse kind refs
      ]
        ≡ ok (some ref)
      → First (r ∷ refs) ref
  by_group r refs ref y rest (err x) p = λ e. cc
  by_group r refs ref y rest (ok group) p = elim (Bool-cases (group == capi_group)) [
    | inl g ↦ rw g (λ e.
        subst (First (r ∷ refs)) (same_owner e)
          (here ((eq_iff r.kind kind).0 y, p ∙ ap ok ((eq_iff group capi_group).0 g))))
    | inr g ↦ rw g (λ e.
        there (λ o. false≢true (sym g ∙ (eq_iff group capi_group).1 (same_group p o.1))) (rest e))
  ]

  -- A reference that the search finds is in the list, is of the kind and in the group of the Cluster
  -- API, and no reference before it is both.
  pub find_owner-First :
      (refs : List OwnerReference) (ref : OwnerReference)
      → find_owner parse kind refs ≡ ok (some ref)
      → First refs ref
  unfolding find_owner
  find_owner-First [] ref = λ e. cc
  find_owner-First (r ∷ refs) ref = elim (Bool-cases (r.kind == kind)) [
    | inr n ↦ rw n (λ e.
        there (λ o. false≢true (sym n ∙ (eq_iff r.kind kind).1 o.0)) (find_owner-First refs ref e))
    | inl y ↦
        rw y (λ e. by_group r refs ref y (find_owner-First refs ref) (parse r.api_version) refl e)
  ]
