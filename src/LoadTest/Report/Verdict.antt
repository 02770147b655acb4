-- ===== src/LoadTest/Report/Verdict.antt =====
-- When the test of a model counts as failed.
use microchat_ai.Prelude.{
  ℕ, ℤ, zero, suc, pos, List, [], ◌∷◌, ◌≤◌, ◌<◌, ◌*◌, ◌^◌, ◌%◌, ◌≡◌, ap, ltb, length, arith, ◌∙◌,
}
use microchat_ai.Float.{Float64, num}
use microchat_ai.Float.Laws.{IsRatio}
use microchat_ai.Config.{signed_64}
use microchat_ai.LoadTest.{LoadTestConfig, Event, run, new_load_tester_with_model}
use microchat_ai.LoadTest.Tally.{failures}
use microchat_ai.LoadTest.Tally.Recorded.{run-IsTally}
use microchat_ai.LoadTest.Report.{has_failed}

failures-le-length : (events : List Event) → failures events ≤ length events
failures-le-length [] = omega arith
failures-le-length (Event.success x ∷ more) = omega (arith, failures-le-length more)
failures-le-length (Event.failure k ∷ more) = omega (arith, failures-le-length more)

signed_64-mod : (n m : ℕ) → n ≡ m % 2 ^ 64 → m < 2 ^ 25 → signed_64 n ≡ pos m
unfolding signed_64
signed_64-mod n m e h = ground arith

module _ {F : Type 0} ⦃f : Float64 F⦄ (laws : IsRatio F) where
  compared :
      (failed total : ℕ)
      → failed ≤ total
      → total < 2 ^ 25
      → f.gt (f.div (num failed) (num total)) (f.div (num 5) (num 100))
        ≡ ltb (5 * total) (failed * 100)
  compared failed zero le h = rw (failed_zero) (laws.gt_nan (f.div (num 5) (num 100)))
    where
      failed_zero : failed ≡ 0
      failed_zero = omega (arith, le)
  compared failed (suc n) le h =
      laws.gt-div failed (suc n) 5 100 (omega arith) h (omega arith) (omega arith) (omega arith)
        (omega arith)

  -- With fewer than 2^25 events, the test of a model fails exactly if more than one request in
  -- twenty failed; so it passes if there was no request at all.
  pub has_failed_iff :
      (config : LoadTestConfig) (model : ℤ) (start end : ℕ) (events : List Event)
      → length events < 2 ^ 25
      → has_failed F (run (new_load_tester_with_model config model) start end events).results
        ≡ ltb (5 * length events) (failures events * 100)
  unfolding has_failed
  has_failed_iff config model start end events few =
      let v = run-IsTally config model start end events in
      let r = (run (new_load_tester_with_model config model) start end events).results in
      let total = signed_64-mod r.total_requests (length events) v.total few in
      let failed =
        signed_64-mod r.failed_reqs (failures events) v.failed
          (omega (arith, failures-le-length events, few)) in
      ap
        (λ p.
          f.gt (f.div (f.of_int p) (f.of_int (signed_64 r.total_requests)))
            (f.div (num 5) (num 100)))
        failed
      ∙ ap (λ p. f.gt (f.div (num (failures events)) (f.of_int p)) (f.div (num 5) (num 100))) total
      ∙ compared (failures events) (length events) (failures-le-length events) few
