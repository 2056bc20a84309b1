-- ===== src/Service/Wait.antt =====
-- waitUntil of pkg/cloud/services/cce/service.go
pub mod Polls
use cluster_api_provider_cce.Prelude.{ℕ, zero, suc, Bool}
use cluster_api_provider_cce.Errors.{new}
use cluster_api_provider_cce.Go.{if◌then◌else◌, M, pure, raise, emit, ◌>>=◌, ◌>>◌}
use cluster_api_provider_cce.Call.{Call}

-- `max_retries` polls at most, with a pause of `interval` seconds after each that says no.
pub wait_until : {W C O : Type 0} → M W (Call C) O Bool → ℕ → ℕ → M W (Call C) O (Unit {0})
wait_until condition interval zero = raise (new "failed to wait")
wait_until condition interval (suc retries) =
    let again = wait_until condition interval retries in
    condition >>= λ done. if done then pure tt else (emit (Call.sleep interval) >> again)

abbrev pub poll_interval : ℕ
poll_interval = 30

abbrev pub max_polls : ℕ
max_polls = 40
