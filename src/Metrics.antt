-- ===== src/Metrics.antt =====
-- cmd/server/metrics.go: the business metrics, which are computed from the store and the tracker.
-- `hash` is hashAPIKey. The values are what the gauges are set to.
pub mod Bounds
pub mod Hash
pub mod OverLimit
pub mod Registry
pub mod Usage
use microchat_ai.Prelude.{
  ℕ, zero, suc, none, some, pos, negsuc, ℤ, Bytes, List, Bool, ◌∷◌, leb_ℤ, if◌then◌else◌, ◌+◌, [],
  length,
}
use microchat_ai.Spending.{KeyUsage, SpendingTracker}
use microchat_ai.GoMap.{GoMap, put}
use microchat_ai.Store.{SessionInfo, SessionStore, get_session_count, get_all_sessions_info}

-- usageData.calls >= limit
abbrev pub is_over : ℤ → KeyUsage → Bool
is_over limit usage = leb_ℤ limit (pos usage.calls)

-- The loop over the tracker's keys: how many are over the limit.
unfoldable pub keys_over_limit : ℤ → GoMap KeyUsage → ℕ
keys_over_limit limit [] = 0
keys_over_limit limit ((key, usage) ∷ m) =
    let rest = keys_over_limit limit m in if is_over limit usage then suc rest else rest

-- And the calls under the hash of each key.
unfoldable pub hashed_usage : (Bytes → Bytes) → GoMap ℕ → GoMap KeyUsage → GoMap ℕ
hashed_usage hash calls [] = calls
hashed_usage hash calls ((key, usage) ∷ m) = hashed_usage hash (put calls (hash key) usage.calls) m

-- The sum of the sizes, from `total` on.
unfoldable pub add_memory : ℕ → List SessionInfo → ℕ
add_memory total [] = total
add_memory total (info ∷ more) = add_memory (total + info.size_bytes) more

pub record BusinessMetrics : Type 0 where
  pub active_sessions : ℕ
  pub api_keys_total : ℕ
  pub daily_call_limit : ℤ
  pub api_keys_over_limit : ℕ
  pub api_calls_today : GoMap ℕ
  pub total_session_memory : ℕ

unfoldable pub update_business_metrics :
    (Bytes → Bytes) → GoMap Bytes → SpendingTracker → SessionStore → BusinessMetrics
unfolding keys_over_limit hashed_usage add_memory
update_business_metrics hash api_keys tracker store = record {
  active_sessions = get_session_count store;
  api_keys_total = length api_keys;
  daily_call_limit = tracker.limit;
  api_keys_over_limit = keys_over_limit tracker.limit tracker.usage;
  api_calls_today = hashed_usage hash [] tracker.usage;
  total_session_memory = add_memory 0 (get_all_sessions_info store);
}
