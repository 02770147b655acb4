-- ===== src/LoadTest/Report/Ordered.antt =====
-- The percentiles of a report stand between its extremes.
use microchat_ai.Prelude.{
  ℕ, ℤ, zero, suc, pos, none, some, Option, List, [], ◌∷◌, returns, Bool, true, ◌≤◌, ◌<◌, ◌^◌, ◌≡◌,
  refl, ltb_ℤ, Bool-cases, inl, inr, length, All, arith, subst, ap, ◌%◌, not, sym, ◌∙◌,
}
use microchat_ai.Float.{Float64, num}
use microchat_ai.Float.Laws.{IsFloat}
use microchat_ai.Config.{signed_64}
use microchat_ai.LoadTest.{LoadTestConfig, LoadTestResults, Event, run, new_load_tester_with_model}
use microchat_ai.LoadTest.Percentile.{sort_latencies, calculate_percentile}
use microchat_ai.LoadTest.Percentile.Sorting.{
  sort_latencies-IsSorted, sort_latencies-All, length-sort_latencies, IsSorted,
}
use microchat_ai.LoadTest.Percentile.Bounds.{
  IsWithin, calculate_percentile-IsWithin, le_of_eq, le_to_eq,
}
use microchat_ai.LoadTest.Tally.{IsTally, latencies_of, Occurs}
use microchat_ai.LoadTest.Tally.Recorded.{run-IsTally}
use microchat_ai.LoadTest.Report.{
  Distribution, Report, distribution_of, report_of, percent_99_9, latency_distribution,
  print_results, run_load_test_for_model, has_failed,
}

abbrev pub IsBetween : ℕ → ℕ → ℤ → Type 0
IsBetween low high p = (n : ℕ) × (p ≡ pos n) × (low ≤ n) × (n ≤ high)

-- Every percentile is at least the minimum and at most the maximum.
abbrev pub IsOrdered : {F : Type 0} → Option (Distribution F) → Type 0
IsOrdered none = Unit
IsOrdered (some d) =
    IsBetween d.fastest d.slowest d.p50
    × IsBetween d.fastest d.slowest d.p90
    × IsBetween d.fastest d.slowest d.p99
    × IsBetween d.fastest d.slowest d.p99_9

some_inj : {a b : ℕ} → some a ≡ some b → a ≡ b
some_inj e = cc

Occurs-All : (P : ℕ → Type 0) (x : ℕ) (l : List ℕ) → Occurs x l → All P l → P x
Occurs-All P x [] (i, e) h = cc
Occurs-All P x (y ∷ ys) (zero, e) h = subst P (some_inj e) h.0
Occurs-All P x (y ∷ ys) (suc i, e) h = Occurs-All P x ys (i, e) h.1

signed_64_small : (n : ℕ) → n < 2 ^ 53 → signed_64 n ≡ pos n
unfolding signed_64
signed_64_small n h = ground arith

length-latencies_of : (events : List Event) → length (latencies_of events) ≤ length events
length-latencies_of [] = omega arith
length-latencies_of (Event.success x ∷ more) = omega (arith, length-latencies_of more)
length-latencies_of (Event.failure k ∷ more) = omega (arith, length-latencies_of more)

positive_count :
    (n m : ℕ) → n ≡ m % 2 ^ 64 → m < 2 ^ 53 → ltb_ℤ (pos 0) (signed_64 n) ≡ true → 0 < m
unfolding signed_64
positive_count n m e h p = ground arith

module _ {F : Type 0} ⦃f : Float64 F⦄ (laws : IsFloat F) (events : List Event)
    (few : length events < 2 ^ 53) (small : All (λ x. x < 2 ^ 53) (latencies_of events)) where
  slowest_small : (r : LoadTestResults) → IsTally events r → r.max_latency < 2 ^ 53
  slowest_small r v = elim v.slowest_occurs [
    | inl e ↦ omega (arith, e)
    | inr o ↦ Occurs-All (λ x. x < 2 ^ 53) r.max_latency (latencies_of events) o small
  ]

  percentile-IsWithin :
      (r : LoadTestResults) (p : F) (sorted : List ℕ)
      → sort_latencies r.latencies ≡ sorted
      → IsTally events r
      → 0 < length sorted
      → laws.Le (num 0) p
      → laws.Le p (num 100)
      → IsWithin r.min_latency r.max_latency (calculate_percentile sorted p)
  percentile-IsWithin r p [] e v h ge le = ground arith
  percentile-IsWithin r p (x ∷ xs) e v h ge le =
      let e' = sym (ap sort_latencies v.latencies) ∙ e in
      calculate_percentile-IsWithin laws r.min_latency r.max_latency x xs p ge le
        (subst IsSorted e (sort_latencies-IsSorted r.latencies))
        (subst (All (λ y. r.min_latency ≤ y)) e'
          (sort_latencies-All (λ y. r.min_latency ≤ y) (latencies_of events) v.fastest_le))
        (subst (All (λ y. y ≤ r.max_latency)) e'
          (sort_latencies-All (λ y. y ≤ r.max_latency) (latencies_of events) v.slowest_ge))
        (slowest_small r v)
        (omega (
          arith,
          length-latencies_of events,
          length-sort_latencies (latencies_of events),
          ap length e',
          few,
        ))

  distribution_lem :
      (r : LoadTestResults) (a b c d : ℤ)
      → calculate_percentile {F = F} (sort_latencies r.latencies) (num 50) ≡ returns a
      → calculate_percentile {F = F} (sort_latencies r.latencies) (num 90) ≡ returns b
      → calculate_percentile {F = F} (sort_latencies r.latencies) (num 99) ≡ returns c
      → calculate_percentile {F = F} (sort_latencies r.latencies) (percent_99_9 F) ≡ returns d
      → latency_distribution F r ≡ returns (distribution_of F r a b c d)
  unfolding latency_distribution
  distribution_lem r a b c d ea eb ec ed = rw (ea, eb, ec, ed) refl

  distribution-IsOrdered :
      (r : LoadTestResults)
      → IsTally events r
      → 0 < length (latencies_of events)
      → (d : Distribution F) × (latency_distribution F r ≡ returns d) × IsOrdered (some d)
  unfolding latency_distribution
  distribution-IsOrdered r v some_one =
      let at_percentile = λ (p : F).
        percentile-IsWithin r p (sort_latencies r.latencies) refl v
          (omega (arith, some_one, length-sort_latencies r.latencies, ap length v.latencies)) in
      let (n50, e50, b50, c50) =
        at_percentile (num 50) (laws.num_le 0 50 (omega arith) (omega arith))
          (laws.num_le 50 100 (omega arith) (omega arith)) in
      let (n90, e90, b90, c90) =
        at_percentile (num 90) (laws.num_le 0 90 (omega arith) (omega arith))
          (laws.num_le 90 100 (omega arith) (omega arith)) in
      let (n99, e99, b99, c99) =
        at_percentile (num 99) (laws.num_le 0 99 (omega arith) (omega arith))
          (laws.num_le 99 100 (omega arith) (omega arith)) in
      let (n999, e999, b999, c999) =
        at_percentile (percent_99_9 F)
          (le_of_eq laws (laws.div_exact 0 10 (omega arith) (omega arith) (omega arith)) (
            laws.div_mono (num 0) (num 999) 999 10 (omega arith) (omega arith) (omega arith)
              (laws.num_le 0 0 (omega arith) (omega arith))
              (laws.num_le 0 999 (omega arith) (omega arith))
              (laws.num_le 999 999 (omega arith) (omega arith))))
          (le_to_eq laws (laws.div_exact 100 10 (omega arith) (omega arith) (omega arith)) (
            laws.div_mono (num 999) (num 1000) 1000 10 (omega arith) (omega arith) (omega arith)
              (laws.num_le 0 999 (omega arith) (omega arith))
              (laws.num_le 999 1000 (omega arith) (omega arith))
              (laws.num_le 1000 1000 (omega arith) (omega arith)))) in
      (
        distribution_of F r (pos n50) (pos n90) (pos n99) (pos n999),
        distribution_lem r (pos n50) (pos n90) (pos n99) (pos n999) e50 e90 e99 e999,
        (
          (n50, refl, b50, c50),
          (n90, refl, b90, c90),
          (n99, refl, b99, c99),
          (n999, refl, b999, c999),
        ),
      )

  -- On events fewer than 2^53, with latencies below 2^53 nanoseconds: the test of a model returns,
  -- so no index of a percentile is out of range; and the percentiles that it prints are at least
  -- the minimum and at most the maximum that it prints.
  pub run_load_test_for_model-IsOrdered :
      (config : LoadTestConfig) (model : ℤ) (start end : ℕ)
      → (report : Report F) × (passed : Bool) × (run_load_test_for_model F config model start end
            events
          ≡ returns (report, passed))
        × IsOrdered report.distribution
  unfolding run_load_test_for_model print_results
  run_load_test_for_model-IsOrdered config model start end =
      let results = (run (new_load_tester_with_model config model) start end events).results in
      let v = run-IsTally config model start end events in
      elim (Bool-cases (ltb_ℤ (pos 0) (signed_64 results.successful_reqs))) [
        | inl positive ↦
            let (d, e, ordered) = distribution-IsOrdered results v (
              positive_count results.successful_reqs (length (latencies_of events)) v.successful
                (omega (arith, length-latencies_of events, few)) positive) in
            (
              report_of F results (some d),
              not (has_failed F results),
              rw (positive, e) refl,
              ordered,
            )
        | inr none_ ↦ (report_of F results none, not (has_failed F results), rw none_ refl, tt)
      ]
