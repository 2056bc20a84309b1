-- ===== src/Nodepool/Reconcile/Quiet.antt =====
-- The quiet calls of ReconcilePool, in pkg/cloud/services/cce/nodepool.go, among its calls in order.
use cluster_api_provider_cce.Prelude.{ℕ, ◌≡◌, refl, Option, none, some, List}
use cluster_api_provider_cce.Go.Ranks.{Upto, Upto-call, Upto-emit, Upto-modify}
use cluster_api_provider_cce.Call.{Call}
use cluster_api_provider_cce.Nodepool.Frame.{IsQuiet, Quiet}

-- The creation of a node pool, the only step; the other calls are quiet, or out of reach.
abbrev pub pool_rank : {C : Type 0} → Call C → Option ℕ
pool_rank (Call.create_node_pool r) = some 0
pool_rank (Call.show_node_pool c p) = none
pool_rank (Call.list_nodes c) = none
pool_rank (Call.patch_machine_pool pool) = none
pool_rank (Call.sleep n) = none
pool_rank _ = some 100

pub quiet-pool_rank : {C : Type 0} (c : Call C) → IsQuiet c → pool_rank c ≡ none
quiet-pool_rank (Call.show_node_pool c p) q = refl
quiet-pool_rank (Call.list_nodes c) q = refl
quiet-pool_rank (Call.patch_machine_pool pool) q = refl
quiet-pool_rank (Call.sleep n) q = refl
quiet-pool_rank _ q = absurd q

abbrev pub quiet :
    {W C : Type 0} (before : List (Call C)) (n : ℕ) → Quiet {W = W} (Upto pool_rank before n)
quiet before n = record {
  on_call = λ c f q. Upto-call n c f (quiet-pool_rank c q);
  on_emit = λ c q. Upto-emit n c (quiet-pool_rank c q);
  on_edit = λ f k. Upto-modify n f;
}
