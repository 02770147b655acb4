-- ===== src/Metrics/Registry.antt =====
-- cmd/server/metrics.go: the gauges, counters and histograms, the functions that change them, and
-- the goroutine that updates them. A gauge holds the number that it is set to; a histogram holds
-- what it was given, from which its buckets are counted.
use microchat_ai.Prelude.{
  ℕ, ℤ, zero, suc, pos, negsuc, none, some, Option, Bytes, List, [], ◌∷◌, ◌++◌, ◌+◌, ◌/◌, decimal,
  decimal_ℤ,
}
use microchat_ai.GoMap.{GoMap, get, put}
use microchat_ai.Config.{Config}
use microchat_ai.Spending.{SpendingTracker}
use microchat_ai.Store.{SessionStore}
use microchat_ai.Handlers.{
  Metric, request_size, grpc_error, llm_error, session_created, active_sessions,
}
use microchat_ai.Metrics.{BusinessMetrics, update_business_metrics}

-- Label values lead to a value; `F` is the type of a duration in seconds.
pub record Registry (F : Type 0) : Type 0 where
  pub request_duration : GoMap (List F)
  pub llm_call_duration : GoMap (List F)
  pub active : ℕ
  pub sessions_created_total : ℕ
  pub rate_limit_exceeded_total : ℕ
  pub request_bytes : GoMap (List ℕ)
  pub api_keys_total : ℕ
  pub api_calls_today : GoMap ℕ
  pub api_keys_over_limit : ℕ
  pub daily_call_limit : ℤ
  pub total_session_memory_bytes : ℕ
  pub grpc_errors : GoMap (GoMap ℕ)
  pub llm_errors : GoMap (GoMap ℕ)
  pub server_config_info : List (List Bytes)
  pub server_start_time : ℕ

-- The value of a series that may not be there yet.
abbrev pub or_new {ℓ} : {A : Type ℓ} → A → Option A → A
or_new new none = new
or_new new (some a) = a

abbrev pub observe {ℓ} : {A : Type ℓ} → GoMap (List A) → Bytes → A → GoMap (List A)
observe series label a = put series label (or_new [] (get series label) ++ (a ∷ []))

abbrev increment_in : GoMap ℕ → Bytes → GoMap ℕ
increment_in series label = put series label (or_new 0 (get series label) + 1)

abbrev pub increment : GoMap (GoMap ℕ) → Bytes → Bytes → GoMap (GoMap ℕ)
increment series a b = put series a (increment_in (or_new [] (get series a)) b)

-- `.Set` for each entry of a map.
unfoldable pub set_all : GoMap ℕ → GoMap ℕ → GoMap ℕ
set_all series [] = series
set_all series ((label, n) ∷ m) = set_all (put series label n) m

-- A quotient of ints, which Go rounds to zero.
abbrev pub kb_of : ℤ → ℤ
kb_of (pos n) = pos (n / 1024)
kb_of (negsuc n) = minus (suc n / 1024)
  where
    minus : ℕ → ℤ
    minus zero = pos 0
    minus (suc n) = negsuc n

module _ {F : Type 0} where
  unfoldable pub update_active_sessions : Registry F → ℕ → Registry F
  update_active_sessions r count = record r { active = count }

  unfoldable pub increment_sessions_created : Registry F → Registry F
  increment_sessions_created r = record r { sessions_created_total = r.sessions_created_total + 1 }

  unfoldable pub record_request_duration : Registry F → Bytes → F → Registry F
  record_request_duration r method seconds = record r {
    request_duration = observe r.request_duration method seconds;
  }

  unfoldable pub record_llm_call_duration : Registry F → Bytes → F → Registry F
  record_llm_call_duration r provider seconds = record r {
    llm_call_duration = observe r.llm_call_duration provider seconds;
  }

  unfoldable pub increment_rate_limit_exceeded : Registry F → Registry F
  increment_rate_limit_exceeded r = record r {
    rate_limit_exceeded_total = r.rate_limit_exceeded_total + 1;
  }

  unfoldable pub record_request_size : Registry F → Bytes → ℕ → Registry F
  record_request_size r method n = record r { request_bytes = observe r.request_bytes method n }

  unfoldable pub update_api_key_metrics : Registry F → ℕ → GoMap ℕ → ℤ → ℕ → Registry F
  unfolding set_all
  update_api_key_metrics r total_keys usage limit keys_over_limit = record r {
    api_keys_total = total_keys;
    daily_call_limit = limit;
    api_keys_over_limit = keys_over_limit;
    api_calls_today = set_all r.api_calls_today usage;
  }

  unfoldable pub update_total_session_memory : Registry F → ℕ → Registry F
  update_total_session_memory r n = record r { total_session_memory_bytes = n }

  unfoldable pub increment_grpc_error : Registry F → Bytes → Bytes → Registry F
  increment_grpc_error r method code = record r {
    grpc_errors = increment r.grpc_errors method code;
  }

  unfoldable pub increment_llm_error : Registry F → Bytes → Bytes → Registry F
  increment_llm_error r provider error_type = record r {
    llm_errors = increment r.llm_errors provider error_type;
  }

  -- What a handler emits, as the call that it makes.
  unfoldable pub apply_metric : Registry F → Metric → Registry F
  unfolding record_request_size increment_grpc_error increment_llm_error increment_sessions_created
      update_active_sessions
  apply_metric r (request_size method n) = record_request_size r method n
  apply_metric r (grpc_error method code) = increment_grpc_error r method code
  apply_metric r (llm_error provider error_type) = increment_llm_error r provider error_type
  apply_metric r session_created = increment_sessions_created r
  apply_metric r (active_sessions count) = update_active_sessions r count

  -- What updateBusinessMetrics does with the values that it computes.
  unfoldable pub publish : Registry F → BusinessMetrics → Registry F
  unfolding update_active_sessions update_api_key_metrics update_total_session_memory
  publish r m =
      update_total_session_memory
        (update_api_key_metrics (update_active_sessions r m.active_sessions) m.api_keys_total
          m.api_calls_today m.daily_call_limit m.api_keys_over_limit)
        m.total_session_memory

  -- `one_decimal` is the format %.1f; `now` is in seconds.
  unfoldable pub initialize_server_metrics :
      {Float : Type 0} → (Float → Bytes) → Registry F → Config Float → ℕ → Registry F
  initialize_server_metrics one_decimal r cfg now = record r {
    server_start_time = now;
    server_config_info =
        (decimal cfg.max_sessions
          ∷ decimal cfg.max_messages_per_session
          ∷ decimal_ℤ (kb_of cfg.max_session_size_bytes)
          ∷ one_decimal cfg.rate_limit_rps
          ∷ decimal cfg.rate_limit_burst
          ∷ [])
        ∷ r.server_config_info;
  }

  -- The ticks of the updater, with the tracker and the store that each one meets.
  unfoldable pub update_all :
      (Bytes → Bytes)
      → GoMap Bytes
      → Registry F
      → List (SpendingTracker × SessionStore)
      → Registry F
  unfolding publish
  update_all hash api_keys r [] = r
  update_all hash api_keys r ((tracker, store) ∷ more) =
      update_all hash api_keys (publish r (update_business_metrics hash api_keys tracker store))
        more

  unfoldable pub start_metrics_updater :
      {Float : Type 0}
      → (Float → Bytes)
      → (Bytes → Bytes)
      → Registry F
      → Config Float
      → ℕ
      → List (SpendingTracker × SessionStore)
      → Registry F
  unfolding initialize_server_metrics update_all
  start_metrics_updater one_decimal hash r cfg now ticks =
      update_all hash cfg.api_keys (initialize_server_metrics one_decimal r cfg now) ticks
