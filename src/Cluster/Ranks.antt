-- ===== src/Cluster/Ranks.antt =====
-- The calls of a control plane's reconciliation, by the order in which they are made.
use cluster_api_provider_cce.Prelude.{ℕ, String, ◌≡◌, refl, Option, none, some, List}
use cluster_api_provider_cce.Errors.{Result}
use cluster_api_provider_cce.Go.{State, call, emit}
use cluster_api_provider_cce.Go.Keeps.{Keeps}
use cluster_api_provider_cce.Go.Ranks.{Upto, Goes, Upto-call, Upto-emit, Upto-modify}
use cluster_api_provider_cce.Call.{Call, CpM}
use cluster_api_provider_cce.Api.ControlPlane.{ControlPlane}
use cluster_api_provider_cce.Cluster.Frame.{IsQuiet, Quiet}

-- The steps of a reconciliation that change the cloud or the kubeconfig's secret, in their order. A quiet
-- call has no rank; a call that a reconciliation never makes has one that is out of reach.
abbrev pub step_rank : {C : Type 0} → Call C → Option ℕ
step_rank (Call.create_vpc r) = some 0
step_rank (Call.create_subnet r) = some 1
step_rank (Call.create_cluster r) = some 2
step_rank (Call.create_publicip r) = some 3
step_rank (Call.update_cluster_eip id a e) = some 4
step_rank (Call.create_cert id n) = some 5
step_rank (Call.create_kubeconfig_secret key text) = some 6
step_rank (Call.update_secret secret) = some 7
step_rank (Call.show_cluster id) = none
step_rank (Call.show_cluster_endpoints id) = none
step_rank (Call.list_subnets id) = none
step_rank (Call.get_secret key) = none
step_rank (Call.get_kubeconfig_secret key) = none
step_rank (Call.patch_control_plane cp) = none
step_rank (Call.event text) = none
step_rank (Call.sleep n) = none
step_rank _ = some 100

pub quiet-rank : {C : Type 0} (c : Call C) → IsQuiet c → step_rank c ≡ none
quiet-rank (Call.show_cluster id) q = refl
quiet-rank (Call.show_cluster_endpoints id) q = refl
quiet-rank (Call.list_subnets id) q = refl
quiet-rank (Call.get_secret key) q = refl
quiet-rank (Call.get_kubeconfig_secret key) q = refl
quiet-rank (Call.patch_control_plane cp) q = refl
quiet-rank (Call.event text) q = refl
quiet-rank (Call.sleep n) q = refl
quiet-rank _ q = absurd q

module _ {W C : Type 0} (before : List (Call C)) where
  abbrev pub quiet : (n : ℕ) → Quiet {W = W} (Upto step_rank before n)
  quiet n = record {
    on_call = λ c f q. Upto-call n c f (quiet-rank c q);
    on_emit = λ c q. Upto-emit n c (quiet-rank c q);
    on_edit = λ f k. Upto-modify n f;
  }

  abbrev pub Steps : {A : Type 0} → ℕ → ℕ → CpM W C A → Type 0
  Steps n m a = Goes step_rank before n m a

  abbrev pub Under : ℕ → State W (Call C) (ControlPlane C) → Type 0
  Under n = Upto step_rank before n

  pub call-quiet :
      {A : Type 0} (n : ℕ) (c : Call C) (f : W → Result A × W)
      → IsQuiet c
      → Keeps (Under n) (call c f)
  call-quiet n c f q = (quiet n).on_call c f q

  pub emit-quiet : (n : ℕ) (text : String) → Keeps (Under n) (emit (Call.event text))
  emit-quiet n text = (quiet n).on_emit _ tt
