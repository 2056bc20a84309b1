-- ===== src/Nodepool/Status/Laws.antt =====
-- The nodes and the phase in the machine pool's status.
use cluster_api_provider_cce.Prelude.{
  keep, eq_iff, String, ◌≡◌, refl, sym, ◌∙◌, Bool, true, false, ◌||◌, some, List, [], ◌∷◌, ◌==◌,
  map, arith, Bool-cases, inl, inr,
}
use cluster_api_provider_cce.Go.{State, ret, ◌>>=◌}
use cluster_api_provider_cce.Call.{Call}
use cluster_api_provider_cce.Sdk.{Enums, Node}
use cluster_api_provider_cce.Api.MachinePool.{ManagedMachinePool}
use cluster_api_provider_cce.Nodepool.Status.{
  provider_id, is_in_pool, node_provider_id, provider_ids, apply_phase, with_ready, with_failure,
}

-- A node of which all that the loop reads is there.
pub record FullNode : Type 0 where
  pub annotations : List (String × String)
  pub uid : String
  pub az : String

abbrev pub to_node : FullNode → Node
to_node n = record {
  metadata = some (record { annotations = n.annotations; uid = some n.uid });
  az = some n.az;
}

module _ {W C : Type 0} where
  -- For nodes that have a metadata, a zone and a uid, the loop of setStatus gives the provider ids of
  -- the nodes whose annotation names the pool, in their order, and changes nothing.
  pub provider_ids-keep :
      (pool_id : String) (ns : List FullNode) (s : State W (Call C) (ManagedMachinePool C))
      → provider_ids pool_id (map to_node ns) s ≡ (
        ret (map (λ n. provider_id n.az n.uid) (keep (λ n. is_in_pool pool_id n.annotations) ns)),
        s,
      )
  unfolding provider_ids node_provider_id ◌>>=◌
  provider_ids-keep pool_id [] s = refl
  provider_ids-keep pool_id (n ∷ ns) s = elim (Bool-cases (is_in_pool pool_id n.annotations)) [
    | inl e ↦ rw e (rw (provider_ids-keep pool_id ns s) refl)
    | inr e ↦ rw e (provider_ids-keep pool_id ns s)
  ]

-- The SDK's phases are texts that are not empty.
abbrev pub Named : Enums → Type 0
Named enums =
    (("" == enums.deleting) ≡ false)
    × ((("" == enums.error) ≡ false)
        × ((("" == enums.sold_out) ≡ false)
            × ((("" == enums.synchronizing) ≡ false) × (("" == enums.synchronized) ≡ false))))

abbrev pub is_known : Enums → String → Bool
is_known enums phase =
    phase == enums.deleting
    || (phase == enums.error
        || (phase == enums.sold_out
            || (phase == enums.synchronizing || (phase == enums.synchronized || phase == ""))))

module _ {W C : Type 0} (enums : Enums) (named : Named enums) (phase : String)
    (s : State W (Call C) (ManagedMachinePool C)) where
  empty-ready : phase ≡ "" → (apply_phase enums phase s).1.obj.status.ready ≡ true
  unfolding apply_phase with_ready with_failure ◌>>=◌
  empty-ready e = let (a, (b, (c, (d, f)))) = named in rw (e, a, b, c, d, f) refl

  named-not_ready :
      is_known enums phase ≡ true
      → (phase == "") ≡ false
      → (apply_phase enums phase s).1.obj.status.ready ≡ false
  unfolding apply_phase with_ready with_failure ◌>>=◌
  named-not_ready k n = ground arith

  -- Where none of the SDK's five phases is the empty text, and the phase is one of them or empty,
  -- the `switch` leaves the pool ready if and only if the phase is empty.
  pub apply_phase-ready :
      is_known enums phase ≡ true → (apply_phase enums phase s).1.obj.status.ready ≡ (phase == "")
  apply_phase-ready k = elim (Bool-cases (phase == "")) [
    | inl e ↦ empty-ready ((eq_iff phase "").0 e) ∙ sym e
    | inr e ↦ named-not_ready k e ∙ sym e
  ]
