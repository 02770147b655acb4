-- ===== src/Tests/LoadTest.antt =====
-- Runs of the load test.
use microchat_ai.Net.{split, trim_space}
use microchat_ai.Prelude.{
  value, error, OrError, ℕ, some, none, refl, true, false, List, [], bytes, ◌≡◌, pos, ◌∷◌, returns,
  panics, arith, Bool, suc, ◌==◌, zero,
}
use microchat_ai.GoMap.{has}
use microchat_ai.Config.{parse_api_keys, signed_64}
use microchat_ai.Float.{num}
use microchat_ai.LoadTest.{
  LoadTestConfig, Event, success, failure, run, new_load_tester_with_model, record_all, no_results,
}
use microchat_ai.LoadTest.User.{World, run_user}
use microchat_ai.LoadTest.User.Bounded.{IsOwnRun, run_user-IsOwnRun}
use microchat_ai.LoadTest.Percentile.{calculate_percentile, sort_latencies}
use microchat_ai.LoadTest.Summary.{summary}
use microchat_ai.LoadTest.Summary.Interleaving.{
  turn, leaves, done, Interleaves, summary-Interleaves,
}
use microchat_ai.LoadTest.Tally.{IsTally}
use microchat_ai.LoadTest.Tally.Recorded.{run-IsTally}
use microchat_ai.LoadTest.Report.{run_load_test_for_model, has_failed, Report}
use microchat_ai.LoadTest.Report.Ordered.{IsOrdered, run_load_test_for_model-IsOrdered}
use microchat_ai.LoadTest.Report.Verdict.{has_failed_iff}
use microchat_ai.LoadTest.Settings.{get_api_key, Machine, get_server_address, get_ca_cert_path}
use microchat_ai.LoadTest.Settings.Keys.{get_api_key-has}
use microchat_ai.Tests.Floats.{
  thousandths, thousandths-IsFloat, Fraction, fractions, fractions-IsRatio,
}

abbrev config : LoadTestConfig
config = record {
  server_address = bytes "localhost:4000";
  concurrent_users = 2;
  messages_per_user = 3;
  test_duration = 30000000000;
  skip_tls_verify = false;
  ca_cert_path = bytes "ca.crt";
  api_key = bytes "k1";
}

abbrev events : List Event
events = success 30 ∷ failure (bytes "e") ∷ success 10 ∷ success 20 ∷ []

sorted_events : sort_latencies (30 ∷ 10 ∷ 20 ∷ []) ≡ 10 ∷ 20 ∷ 30 ∷ []
unfolding sort_latencies
sorted_events = refl

median : calculate_percentile {F = ℕ} (10 ∷ 20 ∷ 30 ∷ []) (num 50) ≡ returns (pos 20)
unfolding calculate_percentile
median = refl

-- Between the last two.
percentile_90 : calculate_percentile {F = ℕ} (10 ∷ 20 ∷ 30 ∷ []) (num 90) ≡ returns (pos 28)
unfolding calculate_percentile
percentile_90 = refl

-- An index past the end.
percentile_200 : calculate_percentile {F = ℕ} (10 ∷ 20 ∷ 30 ∷ []) (num 200) ≡ panics
unfolding calculate_percentile
percentile_200 = refl

run-IsTally_example :
    IsTally events (run (new_load_tester_with_model config (pos 1)) 5 25 events).results
run-IsTally_example = run-IsTally config (pos 1) 5 25 events

abbrev users : List (List Event)
users = (success 30 ∷ success 10 ∷ []) ∷ (failure (bytes "e") ∷ []) ∷ []

one_first : Interleaves users (success 30 ∷ success 10 ∷ failure (bytes "e") ∷ [])
one_first = turn [] (success 30) (success 10 ∷ []) ((failure (bytes "e") ∷ []) ∷ []) (
    turn [] (success 10) [] ((failure (bytes "e") ∷ []) ∷ [])
      (turn ([] ∷ []) (failure (bytes "e")) [] [] (leaves (leaves done))))

other_between : Interleaves users (success 30 ∷ failure (bytes "e") ∷ success 10 ∷ [])
other_between = turn [] (success 30) (success 10 ∷ []) ((failure (bytes "e") ∷ []) ∷ []) (
    turn ((success 10 ∷ []) ∷ []) (failure (bytes "e")) [] []
      (turn [] (success 10) [] ([] ∷ []) (leaves (leaves done))))

summary-Interleaves_example :
    summary (record_all no_results (success 30 ∷ success 10 ∷ failure (bytes "e") ∷ []))
    ≡ summary (record_all no_results (success 30 ∷ failure (bytes "e") ∷ success 10 ∷ []))
summary-Interleaves_example = summary-Interleaves no_results one_first other_between

run_load_test_for_model-IsOrdered_example :
    (report : Report ℕ) × (passed : Bool) × (run_load_test_for_model ℕ config (pos 1) 5 25 events
      ≡ returns (report, passed))
    × IsOrdered report.distribution
run_load_test_for_model-IsOrdered_example =
    run_load_test_for_model-IsOrdered thousandths-IsFloat events (omega arith) (omega arith) config
      (pos 1) 5 25

has_failed_iff_example :
    has_failed Fraction (run (new_load_tester_with_model config (pos 1)) 5 25 events).results ≡ true
has_failed_iff_example = has_failed_iff fractions-IsRatio config (pos 1) 5 25 events (omega arith)

-- No request at all passes.
nothing_passes :
    has_failed Fraction (run (new_load_tester_with_model config (pos 1)) 5 25 []).results ≡ false
unfolding has_failed signed_64 run new_load_tester_with_model
nothing_passes = refl

-- A server that is not reached in the second round.
abbrev world : World
world = record {
  read_file = λ path. value (bytes "pem");
  append_certs = λ pem. true;
  new_client = λ address creds. none;
  start_session = λ authorization. value (bytes "id");
  done = λ i. i == 2;
  chat = λ i call. answer_of i;
}
  where
    answer_of : ℕ → OrError ℕ
    answer_of zero = value 7
    answer_of (suc n) = error (bytes "unavailable")

run_user-IsOwnRun_example : IsOwnRun world config (pos 1) 3 (run_user world config (pos 1))
run_user-IsOwnRun_example = run_user-IsOwnRun world config (pos 1)

get_api_key-has_example : has (parse_api_keys (bytes "boss:admin, k1 ,k2")) (bytes "k1") ≡ true
unfolding get_api_key split trim_space
get_api_key-has_example = get_api_key-has (bytes "boss:admin, k1 ,k2") (bytes "k1") refl

abbrev machine : Machine
machine = record { getenv = λ name. []; exists = λ path. true; absolute = λ path. some path }

default_address : get_server_address machine ≡ bytes "localhost:4000"
unfolding get_server_address
default_address = refl

default_ca : get_ca_cert_path machine ≡ bytes "../../certs/ca.crt"
unfolding get_ca_cert_path
default_ca = refl
