-- ===== src/LoadTest.antt =====
-- cmd/loadtest/main.go: the tester with its counters, what one user does, and a run of all users.
pub mod User
pub mod Percentile
pub mod Summary
pub mod Tally
pub mod Report
pub mod Settings
use microchat_ai.Prelude.{
  ℕ, ℤ, zero, some, none, Option, Bytes, List, [], ◌∷◌, ◌++◌, ltb, pos, Bool, plus_64,
  if◌then◌else◌,
}
use microchat_ai.GoMap.{GoMap, get, put}

-- TestDuration is in nanoseconds, as all durations are.
pub record LoadTestConfig : Type 0 where
  pub server_address : Bytes
  pub concurrent_users : ℕ
  pub messages_per_user : ℕ
  pub test_duration : ℕ
  pub skip_tls_verify : Bool
  pub ca_cert_path : Bytes
  pub api_key : Bytes

-- The counters are int64, kept as their bit patterns. A latency is the difference of two readings
-- of a monotonic clock, so it is not negative.
pub record LoadTestResults : Type 0 where
  pub total_requests : ℕ
  pub successful_reqs : ℕ
  pub failed_reqs : ℕ
  pub min_latency : ℕ
  pub max_latency : ℕ
  pub latencies : List ℕ
  pub start_time : ℕ
  pub end_time : ℕ
  pub errors_by_type : GoMap ℕ

-- The model is its number in the protocol; 1 is ECHO.
pub record LoadTester : Type 0 where
  pub config : LoadTestConfig
  pub results : LoadTestResults
  pub model : ℤ

-- time.Hour
abbrev pub hour : ℕ
hour = 3600000000000

abbrev pub no_results : LoadTestResults
no_results = record {
  total_requests = 0;
  successful_reqs = 0;
  failed_reqs = 0;
  min_latency = hour;
  max_latency = 0;
  latencies = [];
  start_time = 0;
  end_time = 0;
  errors_by_type = [];
}

unfoldable pub new_load_tester : LoadTestConfig → LoadTester
new_load_tester config = record { config = config; results = no_results; model = pos 1 }

unfoldable pub new_load_tester_with_model : LoadTestConfig → ℤ → LoadTester
unfolding new_load_tester
new_load_tester_with_model config model = record (new_load_tester config) { model = model }

unfoldable pub record_success : LoadTestResults → ℕ → LoadTestResults
record_success r latency = record r {
  total_requests = plus_64 r.total_requests 1;
  successful_reqs = plus_64 r.successful_reqs 1;
  latencies = r.latencies ++ (latency ∷ []);
  min_latency = if ltb latency r.min_latency then latency else r.min_latency;
  max_latency = if ltb r.max_latency latency then latency else r.max_latency;
}

-- m[k] of a map of numbers: 0 for a missing key.
abbrev pub or_zero : Option ℕ → ℕ
or_zero none = 0
or_zero (some n) = n

unfoldable pub record_error : LoadTestResults → Bytes → LoadTestResults
record_error r error_type = record r {
  total_requests = plus_64 r.total_requests 1;
  failed_reqs = plus_64 r.failed_reqs 1;
  errors_by_type =
      put r.errors_by_type error_type (plus_64 (or_zero (get r.errors_by_type error_type)) 1);
}

-- One call of recordSuccess or of recordError; each runs under the lock of the tester.
pub data Event : Type 0 where
  success : ℕ → Event
  failure : Bytes → Event

unfoldable pub record_event : LoadTestResults → Event → LoadTestResults
unfolding record_success record_error
record_event r (success latency) = record_success r latency
record_event r (failure error_type) = record_error r error_type

-- The calls in the order in which they get the lock.
unfoldable pub record_all : LoadTestResults → List Event → LoadTestResults
unfolding record_event
record_all r [] = r
record_all r (event ∷ more) = record_all (record_event r event) more

-- Run, from the events of its users in the order of the lock, and the times of its start and end.
unfoldable pub run : LoadTester → ℕ → ℕ → List Event → LoadTester
unfolding record_all
run lt start end events = record lt {
  results = record (record_all (record lt.results { start_time = start }) events) {
    end_time = end;
  };
}
