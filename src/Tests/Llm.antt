-- ===== src/Tests/Llm.antt =====
-- Runs of the providers.
use microchat_ai.Prelude.{ℕ, zero, suc, refl, false, List, ◌≡◌, bytes, ◌∷◌, returns, [], ◌≤◌}
use microchat_ai.Llm.Gemini.{Attempt, gemini_response, Run, call_failed, plain, answered}
use microchat_ai.Llm.Gemini.Retry.{Answered, gemini_response-Answered, gemini_response-bounded}
use microchat_ai.Store.{LlmMessage}
use microchat_ai.Grpc.{ok}

abbrev asked : List LlmMessage
asked = record { role = bytes "user"; text = bytes "hi" } ∷ []

-- The first attempt fails, and the next is answered.
abbrev attempts : ℕ → Attempt
attempts zero = record {
  cancelled = false;
  called = call_failed (plain (bytes "busy"));
  timed_out = false;
  cancelled_after = false;
}
attempts (suc n) = record {
  cancelled = false;
  called = answered (bytes "hello");
  timed_out = false;
  cancelled_after = false;
}

second :
    gemini_response attempts asked
    ≡ returns (record { result = ok (bytes "hello"); calls = 2; waited = 1 })
unfolding gemini_response
second = refl

gemini_response-bounded_example :
    (run : Run) × (gemini_response attempts asked ≡ returns run)
    × (run.calls ≤ 3)
    × (run.waited ≤ 3)
gemini_response-bounded_example = gemini_response-bounded attempts asked

gemini_response-Answered_example : Answered attempts 3 0 (bytes "hello")
gemini_response-Answered_example =
    gemini_response-Answered attempts asked
      (record { result = ok (bytes "hello"); calls = 2; waited = 1 }) (bytes "hello") second refl
