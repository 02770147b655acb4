-- ===== src/LoadTest/Tally/Recorded.antt =====
-- Every event that is recorded keeps the tally.
use microchat_ai.Prelude.{
  ℕ, List, [], ◌∷◌, ◌++◌, ◌≡◌, refl, ap, arith, Bytes, plus_64, Bytes_discrete, ite, All, ◌≤◌, ◌%◌,
  ◌^◌, ◌⊎◌, ◌+◌, if◌then◌else◌, ltb, length-append, Bool, All-append, inr, ◌∙◌, inl, true, if_pos,
  if_neg, false, sym, ℤ,
}
use mathlib.Core.List.{append-nil, append_assoc}
use microchat_ai.GoMap.{get, get-put}
use microchat_ai.LoadTest.{
  LoadTestResults, Event, success, failure, or_zero, hour, record_success, record_error,
  record_event, record_all, no_results, run, new_load_tester_with_model, LoadTestConfig,
}
use microchat_ai.LoadTest.Tally.{
  IsTally, latencies_of, failures_of, Occurs, latencies_of-append, failures_of-append,
  failures-append, Occurs-append, Occurs-last, plus_64_suc, All-mono,
}

-- An extreme that may be replaced by the latest latency.
extreme-Occurs :
    (bound a x : ℕ) (l : List ℕ) (b : Bool)
    → (a ≡ bound) ⊎ Occurs a l
    → ((if b then x else a) ≡ bound) ⊎ Occurs (if b then x else a) (l ++ (x ∷ []))
extreme-Occurs bound a x l true h = inr (Occurs-last x l)
extreme-Occurs bound a x l false (inl e) = inl e
extreme-Occurs bound a x l false (inr m) = inr (Occurs-append a l (x ∷ []) m)

smallest-le :
    (a x : ℕ) (l : List ℕ)
    → All (λ y. a ≤ y) l
    → All (λ y. (if ltb x a then x else a) ≤ y) (l ++ (x ∷ []))
smallest-le a x l h =
    All-append (λ y. (if ltb x a then x else a) ≤ y) l (x ∷ [])
      (All-mono (λ y. a ≤ y) (λ y. (if ltb x a then x else a) ≤ y) l (λ y p. ground arith) h)
      (ground arith, tt)

largest-ge :
    (a x : ℕ) (l : List ℕ)
    → All (λ y. y ≤ a) l
    → All (λ y. y ≤ (if ltb a x then x else a)) (l ++ (x ∷ []))
largest-ge a x l h =
    All-append (λ y. y ≤ (if ltb a x then x else a)) l (x ∷ [])
      (All-mono (λ y. y ≤ a) (λ y. y ≤ (if ltb a x then x else a)) l (λ y p. ground arith) h)
      (ground arith, tt)

record_success-IsTally :
    (events : List Event) (r : LoadTestResults) (x : ℕ)
    → IsTally events r
    → IsTally (events ++ (success x ∷ [])) (record_success r x)
unfolding record_success
record_success-IsTally events r x v =
    let one = success x ∷ [] in
    let split = latencies_of-append events one in
    record {
      total = rw (length-append events one) (plus_64_suc _ _ v.total);
      successful =
          rw (split, length-append (latencies_of events) (x ∷ [])) (plus_64_suc _ _ v.successful);
      failed = rw (failures-append events one) (omega (arith, v.failed));
      latencies = rw split (ap (λ l. l ++ (x ∷ [])) v.latencies);
      errors = λ t. rw (failures_of-append t events one) (omega (arith, v.errors t));
      fastest_le = rw split (smallest-le r.min_latency x (latencies_of events) v.fastest_le);
      slowest_ge = rw split (largest-ge r.max_latency x (latencies_of events) v.slowest_ge);
      fastest_occurs = rw split (
          extreme-Occurs hour r.min_latency x (latencies_of events) (ltb x r.min_latency)
            v.fastest_occurs);
      slowest_occurs = rw split (
          extreme-Occurs 0 r.max_latency x (latencies_of events) (ltb r.max_latency x)
            v.slowest_occurs);
    }

record_error-errors :
    (r : LoadTestResults) (k t : Bytes) (n : ℕ)
    → or_zero (get r.errors_by_type t) ≡ n % 2 ^ 64
    → or_zero (get (record_error r k).errors_by_type t)
      ≡ (n + ite (Bytes_discrete k t) 1 0) % 2 ^ 64
unfolding record_error
record_error-errors r k t n h =
    let found = get-put r.errors_by_type k t (plus_64 (or_zero (get r.errors_by_type k)) 1) in
    elim (Bytes_discrete k t) [
      | yes p ↦
          rw (found, if_pos _ p, if_pos _ p, p) (plus_64_suc (or_zero (get r.errors_by_type t)) n h)
      | no p ↦ rw (found, if_neg _ p, if_neg _ p) (omega (arith, h))
    ]

record_error-IsTally :
    (events : List Event) (r : LoadTestResults) (k : Bytes)
    → IsTally events r
    → IsTally (events ++ (failure k ∷ [])) (record_error r k)
unfolding record_error
record_error-IsTally events r k v =
    let one = failure k ∷ [] in
    let same = latencies_of-append events one ∙ append-nil (latencies_of events) in
    record {
      total = rw (length-append events one) (plus_64_suc _ _ v.total);
      successful = rw same v.successful;
      failed = rw (failures-append events one) (plus_64_suc _ _ v.failed);
      latencies = rw same v.latencies;
      errors = λ t.
          rw (failures_of-append t events one)
            (record_error-errors r k t (failures_of t events) (v.errors t));
      fastest_le = rw same v.fastest_le;
      slowest_ge = rw same v.slowest_ge;
      fastest_occurs = rw same v.fastest_occurs;
      slowest_occurs = rw same v.slowest_occurs;
    }

record_event-IsTally :
    (events : List Event) (r : LoadTestResults) (event : Event)
    → IsTally events r
    → IsTally (events ++ (event ∷ [])) (record_event r event)
unfolding record_event
record_event-IsTally events r (success x) v = record_success-IsTally events r x v
record_event-IsTally events r (failure k) v = record_error-IsTally events r k v

record_all-IsTally :
    (more events : List Event) (r : LoadTestResults)
    → IsTally events r
    → IsTally (events ++ more) (record_all r more)
unfolding record_all
record_all-IsTally [] events r v = rw (append-nil events) v
record_all-IsTally (event ∷ more) events r v = rw (sym (append_assoc events (event ∷ []) more)) (
    record_all-IsTally more (events ++ (event ∷ [])) (record_event r event)
      (record_event-IsTally events r event v))

no_results-IsTally : (start : ℕ) → IsTally [] (record no_results { start_time = start })
unfolding get
no_results-IsTally start = record {
  total = refl;
  successful = refl;
  failed = refl;
  latencies = refl;
  errors = λ t. refl;
  fastest_le = tt;
  slowest_ge = tt;
  fastest_occurs = inl refl;
  slowest_occurs = inl refl;
}

-- The time of the end is no part of the tally.
stopped-IsTally :
    (events : List Event) (r : LoadTestResults) (end : ℕ)
    → IsTally events r
    → IsTally events (record r { end_time = end })
stopped-IsTally events r end v = record {
  total = v.total;
  successful = v.successful;
  failed = v.failed;
  latencies = v.latencies;
  errors = v.errors;
  fastest_le = v.fastest_le;
  slowest_ge = v.slowest_ge;
  fastest_occurs = v.fastest_occurs;
  slowest_occurs = v.slowest_occurs;
}

-- The results of Run on a new tester count the events that the users recorded: the total, the
-- successes, the failures and the errors of each type modulo 2^64; the latencies are those of the
-- successes in order, and the extremes are a lower and an upper bound of them, and one of them or
-- the value at the start, an hour or 0.
pub run-IsTally :
    (config : LoadTestConfig) (model : ℤ) (start end : ℕ) (events : List Event)
    → IsTally events (run (new_load_tester_with_model config model) start end events).results
unfolding run new_load_tester_with_model
run-IsTally config model start end events =
    stopped-IsTally events (record_all (record no_results { start_time = start }) events) end (
      record_all-IsTally events [] (record no_results { start_time = start })
        (no_results-IsTally start))
