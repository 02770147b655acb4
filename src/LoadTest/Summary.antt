-- ===== src/LoadTest/Summary.antt =====
-- What the results of a load test amount to, without the order in which the users got the lock.
pub mod Interleaving
use microchat_ai.Prelude.{
  ℕ, List, [], ◌∷◌, ◌++◌, ◌≡◌, refl, sym, ap, fun_ext, ltb, if◌then◌else◌, arith, Bytes, plus_64,
  Bytes_discrete, ite, ◌∙◌, some,
}
use microchat_ai.GoMap.{get, put, get-put}
use microchat_ai.LoadTest.{
  LoadTestResults, Event, success, failure, record_event, record_all, or_zero, record_success,
  record_error,
}
use microchat_ai.LoadTest.Percentile.{insert, sort_latencies}
use microchat_ai.LoadTest.Percentile.Sorting.{sort_latencies-append, insert-commute}

-- The latencies in order of size, and the number of errors of each type.
pub record Summary : Type 0 where
  pub total : ℕ
  pub successful : ℕ
  pub failed : ℕ
  pub fastest : ℕ
  pub slowest : ℕ
  pub sorted : List ℕ
  pub errors : Bytes → ℕ

abbrev pub summary : LoadTestResults → Summary
summary r = record {
  total = r.total_requests;
  successful = r.successful_reqs;
  failed = r.failed_reqs;
  fastest = r.min_latency;
  slowest = r.max_latency;
  sorted = sort_latencies r.latencies;
  errors = λ t. or_zero (get r.errors_by_type t);
}

abbrev count_error : (Bytes → ℕ) → Bytes → Bytes → ℕ
count_error errors k t = ite (Bytes_discrete k t) (plus_64 (errors k) 1) (errors t)

abbrev smaller : ℕ → ℕ → ℕ
smaller least x = if ltb x least then x else least

abbrev larger : ℕ → ℕ → ℕ
larger most x = if ltb most x then x else most

-- An event adds to the summary.
abbrev pub add_event : Summary → Event → Summary
add_event s (success latency) = record s {
  total = plus_64 s.total 1;
  successful = plus_64 s.successful 1;
  fastest = smaller s.fastest latency;
  slowest = larger s.slowest latency;
  sorted = insert latency s.sorted;
}
add_event s (failure k) = record s {
  total = plus_64 s.total 1;
  failed = plus_64 s.failed 1;
  errors = count_error s.errors k;
}

abbrev pub add_all : Summary → List Event → Summary
add_all s [] = s
add_all s (event ∷ more) = add_all (add_event s event) more

errors-record_error :
    (r : LoadTestResults) (k t : Bytes)
    → or_zero (get (record_error r k).errors_by_type t)
      ≡ count_error (λ u. or_zero (get r.errors_by_type u)) k t
unfolding record_error
errors-record_error r k t =
    ground (arith, get-put r.errors_by_type k t (plus_64 (or_zero (get r.errors_by_type k)) 1))

summary-record_event :
    (r : LoadTestResults) (event : Event)
    → summary (record_event r event) ≡ add_event (summary r) event
unfolding record_event record_success
summary-record_event r (success latency) =
    ap (λ l. record (add_event (summary r) (success latency)) { sorted = l })
      (sort_latencies-append r.latencies latency)
summary-record_event r (failure k) =
    ap (λ e. record (add_event (summary r) (failure k)) { errors = e })
      (fun_ext (errors-record_error r k))

pub summary-record_all :
    (events : List Event) (r : LoadTestResults)
    → summary (record_all r events) ≡ add_all (summary r) events
unfolding record_all
summary-record_all [] r = refl
summary-record_all (event ∷ more) r =
    summary-record_all more (record_event r event)
    ∙ ap (λ s. add_all s more) (summary-record_event r event)

count_error-commute :
    (errors : Bytes → ℕ) (j k t : Bytes)
    → count_error (count_error errors j) k t ≡ count_error (count_error errors k) j t
count_error-commute errors j k t = ground arith

smaller-commute : (a x y : ℕ) → smaller (smaller a x) y ≡ smaller (smaller a y) x
smaller-commute a x y = ground arith

larger-commute : (a x y : ℕ) → larger (larger a x) y ≡ larger (larger a y) x
larger-commute a x y = ground arith

-- The events commute.
pub add_event-commute :
    (s : Summary) (a b : Event) → add_event (add_event s a) b ≡ add_event (add_event s b) a
add_event-commute s (success x) (success y) = λ i.
    record (add_event (add_event s (success x)) (success y)) {
      fastest = smaller-commute s.fastest x y i;
      slowest = larger-commute s.slowest x y i;
      sorted = insert-commute y x s.sorted i;
    }
add_event-commute s (success x) (failure k) = refl
add_event-commute s (failure j) (success y) = refl
add_event-commute s (failure j) (failure k) =
    ap (λ e. record (add_event (add_event s (failure j)) (failure k)) { errors = e })
      (fun_ext (count_error-commute s.errors j k))
