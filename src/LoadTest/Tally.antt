-- ===== src/LoadTest/Tally.antt =====
-- The results of a load test count the events that its users recorded.
pub mod Recorded
use microchat_ai.Prelude.{
  ℕ, zero, suc, List, [], ◌∷◌, ◌++◌, ◌≡◌, refl, ap, arith, Bytes, plus_64, Bytes_discrete, ite,
  some, length, get_elem?, All, ◌≤◌, ◌%◌, ◌^◌, ◌⊎◌, ◌+◌, if◌then◌else◌, ltb, length-append, Bool,
  All-append, inr, ◌∙◌, inl, true, if_pos, if_neg, false, sym, ℤ,
}
use mathlib.Core.List.{append-nil, append_assoc}
use microchat_ai.GoMap.{get, get-put}
use microchat_ai.LoadTest.{
  LoadTestResults, Event, success, failure, or_zero, hour, record_success, record_error,
  record_event, record_all, no_results, run, new_load_tester_with_model, LoadTestConfig,
}

abbrev pub latencies_of : List Event → List ℕ
latencies_of [] = []
latencies_of (success latency ∷ more) = latency ∷ latencies_of more
latencies_of (failure e ∷ more) = latencies_of more

-- How many events there are that failed, of one type, and of any.
abbrev pub failures_of : Bytes → List Event → ℕ
failures_of t [] = 0
failures_of t (success latency ∷ more) = failures_of t more
failures_of t (failure e ∷ more) =
    ite (Bytes_discrete e t) (suc (failures_of t more)) (failures_of t more)

abbrev pub failures : List Event → ℕ
failures [] = 0
failures (success latency ∷ more) = failures more
failures (failure e ∷ more) = suc (failures more)

-- `x` stands in the list.
abbrev pub Occurs : ℕ → List ℕ → Type 0
Occurs x l = (i : ℕ) × (get_elem? l i ≡ some x)

-- The counters are those of the events, modulo 2^64, the latencies those of the successes in
-- order, and the extremes their minimum and maximum, from an hour and from 0 on.
pub record IsTally (events : List Event) (r : LoadTestResults) : Type 0 where
  pub total : r.total_requests ≡ length events % 2 ^ 64
  pub successful : r.successful_reqs ≡ length (latencies_of events) % 2 ^ 64
  pub failed : r.failed_reqs ≡ failures events % 2 ^ 64
  pub latencies : r.latencies ≡ latencies_of events
  pub errors : (t : Bytes) → or_zero (get r.errors_by_type t) ≡ failures_of t events % 2 ^ 64
  pub fastest_le : All (λ x. (r.min_latency ≤ x)) (latencies_of events)
  pub slowest_ge : All (λ x. (x ≤ r.max_latency)) (latencies_of events)
  pub fastest_occurs : (r.min_latency ≡ hour) ⊎ Occurs r.min_latency (latencies_of events)
  pub slowest_occurs : (r.max_latency ≡ 0) ⊎ Occurs r.max_latency (latencies_of events)

pub latencies_of-append :
    (xs ys : List Event) → latencies_of (xs ++ ys) ≡ latencies_of xs ++ latencies_of ys
latencies_of-append [] ys = refl
latencies_of-append (success l ∷ xs) ys = ap (◌∷◌ l) (latencies_of-append xs ys)
latencies_of-append (failure e ∷ xs) ys = latencies_of-append xs ys

pub failures_of-append :
    (t : Bytes) (xs ys : List Event)
    → failures_of t (xs ++ ys) ≡ failures_of t xs + failures_of t ys
failures_of-append t [] ys = omega arith
failures_of-append t (success l ∷ xs) ys = failures_of-append t xs ys
failures_of-append t (failure e ∷ xs) ys = ground (arith, failures_of-append t xs ys)

pub failures-append : (xs ys : List Event) → failures (xs ++ ys) ≡ failures xs + failures ys
failures-append [] ys = omega arith
failures-append (success l ∷ xs) ys = failures-append xs ys
failures-append (failure e ∷ xs) ys = omega (arith, failures-append xs ys)

pub Occurs-append : (x : ℕ) (xs ys : List ℕ) → Occurs x xs → Occurs x (xs ++ ys)
Occurs-append x [] ys (i, h) = cc
Occurs-append x (y ∷ xs) ys (zero, h) = (zero, h)
Occurs-append x (y ∷ xs) ys (suc i, h) = let (j, k) = Occurs-append x xs ys (i, h) in (suc j, k)

pub Occurs-last : (x : ℕ) (xs : List ℕ) → Occurs x (xs ++ (x ∷ []))
Occurs-last x [] = (zero, refl)
Occurs-last x (y ∷ xs) = let (j, k) = Occurs-last x xs in (suc j, k)

pub plus_64_suc : (a n : ℕ) → a ≡ n % 2 ^ 64 → plus_64 a 1 ≡ (n + 1) % 2 ^ 64
plus_64_suc a n h = omega (arith, h)

pub All-mono : (P Q : ℕ → Type 0) (l : List ℕ) → ((x : ℕ) → P x → Q x) → All P l → All Q l
All-mono P Q [] f h = tt
All-mono P Q (x ∷ xs) f h = (f x h.0, All-mono P Q xs f h.1)
