-- ===== src/LoadTest/Report.antt =====
-- cmd/loadtest/main.go: PrintResults, the test of one model, and main. Lines of text are left out;
-- a report holds the values that are printed.
pub mod Ordered
pub mod Verdict
use microchat_ai.Prelude.{
  ℕ, ℤ, pos, none, some, Option, List, Outcome, returns, ◌>>=◌, Bool, not, ◌-◌, ◌/◌, ◌%◌,
  if◌then◌else◌, ltb_ℤ, ◌&&◌, ◌-ℤ◌,
}
use microchat_ai.GoMap.{GoMap}
use microchat_ai.Float.{Float64, num}
use microchat_ai.Config.{signed_64}
use microchat_ai.LoadTest.{LoadTestConfig, LoadTestResults, Event, run, new_load_tester_with_model}
use microchat_ai.LoadTest.Percentile.{sort_latencies, calculate_percentile}

-- The block that is printed if a request succeeded.
pub record Distribution (F : Type 0) : Type 0 where
  pub fastest : ℕ
  pub p50 : ℤ
  pub p90 : ℤ
  pub p99 : ℤ
  pub p99_9 : ℤ
  pub slowest : ℕ
  pub throughput : F

-- The counters are printed as int64; durations are in nanoseconds.
pub record Report (F : Type 0) : Type 0 where
  pub duration : ℤ
  pub total : ℤ
  pub successful : ℤ
  pub failed : ℤ
  pub success_rate : F
  pub distribution : Option (Distribution F)
  pub breakdown : GoMap ℕ

abbrev pub duration_of : LoadTestResults → ℤ
duration_of r = pos r.end_time -ℤ pos r.start_time

module _ (F : Type 0) ⦃f : Float64 F⦄ where
  -- float64 of a counter.
  abbrev pub count : ℕ → F
  count n = f.of_int (signed_64 n)

  -- Seconds of a duration that is not negative: the whole seconds, and the nanoseconds above them.
  abbrev pub seconds : ℕ → F
  seconds d = f.add (num (d / 1000000000)) (f.div (num (d % 1000000000)) (num 1000000000))

  -- The literal 99.9, which is the number nearest to 999/10.
  abbrev pub percent_99_9 : F
  percent_99_9 = f.div (num 999) (num 10)

  abbrev pub distribution_of : LoadTestResults → ℤ → ℤ → ℤ → ℤ → Distribution F
  distribution_of r p50 p90 p99 p99_9 = record {
    fastest = r.min_latency;
    p50 = p50;
    p90 = p90;
    p99 = p99;
    p99_9 = p99_9;
    slowest = r.max_latency;
    throughput = f.div (count r.successful_reqs) (seconds (r.end_time - r.start_time));
  }

  unfoldable pub latency_distribution : LoadTestResults → Outcome (Distribution F)
  latency_distribution r = do
    let sorted = sort_latencies r.latencies
    p50 ← calculate_percentile {F = F} sorted (num 50)
    p90 ← calculate_percentile {F = F} sorted (num 90)
    p99 ← calculate_percentile {F = F} sorted (num 99)
    p99_9 ← calculate_percentile {F = F} sorted percent_99_9
    returns (distribution_of r p50 p90 p99 p99_9)

  abbrev pub if_any : LoadTestResults → Outcome (Distribution F) → Outcome (Option (Distribution F))
  if_any r found =
      if ltb_ℤ (pos 0) (signed_64 r.successful_reqs)
      then (do d ← found; returns (some d))
      else returns none

  abbrev pub report_of : LoadTestResults → Option (Distribution F) → Report F
  report_of r distribution = record {
    duration = duration_of r;
    total = signed_64 r.total_requests;
    successful = signed_64 r.successful_reqs;
    failed = signed_64 r.failed_reqs;
    success_rate = f.mul (f.div (count r.successful_reqs) (count r.total_requests)) (num 100);
    distribution = distribution;
    breakdown = r.errors_by_type;
  }

  unfoldable pub print_results : LoadTestResults → Outcome (Report F)
  unfolding latency_distribution
  print_results r = do
    distribution ← if_any r (latency_distribution r)
    returns (report_of r distribution)

  -- The literal 0.05, which is the number nearest to 5/100.
  abbrev pub max_failure_rate : F
  max_failure_rate = f.div (num 5) (num 100)

  -- failureRate > 0.05
  unfoldable pub has_failed : LoadTestResults → Bool
  has_failed r = f.gt (f.div (count r.failed_reqs) (count r.total_requests)) max_failure_rate

  -- `events` are what the users record, in the order of the lock.
  unfoldable pub run_load_test_for_model :
      LoadTestConfig → ℤ → ℕ → ℕ → List Event → Outcome (Report F × Bool)
  unfolding print_results has_failed
  run_load_test_for_model config model start end events = do
    let results = (run (new_load_tester_with_model config model) start end events).results
    report ← print_results results
    returns (report, not (has_failed results))

-- What happens in the test of one model.
pub record Trial : Type 0 where
  pub start : ℕ
  pub end : ℕ
  pub events : List Event

-- The loop of main over the two models: whether the tests of both pass. 0 is
-- GEMINI_2_5_FLASH_LITE and 1 is ECHO.
unfoldable pub test_models :
    (F : Type 0) ⦃f : Float64 F⦄ → LoadTestConfig → Trial → Trial → Outcome Bool
unfolding run_load_test_for_model
test_models F config echo gemini = do
  first ← run_load_test_for_model F config (pos 1) echo.start echo.end echo.events
  second ← run_load_test_for_model F config (pos 0) gemini.start gemini.end gemini.events
  returns (first.1 && second.1)
