-- ===== src/Llm/Mock.antt =====
-- cmd/server/llm/mock_provider.go.
use microchat_ai.Prelude.{
  none, some, suc, ℕ, Bytes, List, false, Option, Bool, bytes, true, [], ◌++◌, ◌∷◌, Outcome, panics,
  if◌then◌else◌, returns, length, ◌==◌, get_elem?, ◌%◌,
}
use microchat_ai.Store.{LlmMessage}
use microchat_ai.Llm.{Generated, generated, failed}

-- responseIndex is a counter that starts at 0 and is only counted up.
pub record MockProvider : Type 0 where
  pub name : Bytes
  pub responses : List Bytes
  pub response_index : ℕ
  pub should_error : Bool
  pub error_message : Bytes

unfoldable pub new_mock_provider : Bytes → MockProvider
new_mock_provider name = record {
  name = name;
  responses = (bytes "Mock response from " ++ name) ∷ [];
  response_index = 0;
  should_error = false;
  error_message = [];
}

unfoldable pub set_responses : MockProvider → List Bytes → MockProvider
set_responses m responses = record m { responses = responses; response_index = 0 }

unfoldable pub set_error : MockProvider → Bytes → MockProvider
set_error m error_message = record m { should_error = true; error_message = error_message }

unfoldable pub clear_error : MockProvider → MockProvider
clear_error m = record m { should_error = false; error_message = [] }

unfoldable pub reset : MockProvider → MockProvider
reset m = record m { response_index = 0; should_error = false; error_message = [] }

-- The last message goes into the answer.
unfoldable pub with_context : Option LlmMessage → Bytes → Bytes
with_context none response = response
with_context (some msg) response =
    bytes "Mock response to: '" ++ msg.text ++ bytes "' - " ++ response

abbrev last_message : List LlmMessage → Option LlmMessage
last_message [] = none
last_message (msg ∷ []) = some msg
last_message (msg ∷ next ∷ more) = last_message (next ∷ more)

-- m.responses[i]; an index out of range panics.
unfoldable pub answer_with :
    MockProvider → List LlmMessage → Option Bytes → Outcome (MockProvider × Generated)
unfolding with_context
answer_with m messages none = panics
answer_with m messages (some response) = returns (
  record m { response_index = suc m.response_index },
  generated (with_context (last_message messages) response),
)

unfoldable pub mock_response : MockProvider → List LlmMessage → Outcome (MockProvider × Generated)
unfolding answer_with
mock_response m messages =
    if m.should_error
    then returns (m, failed m.error_message)
    else if length m.responses == 0
    then returns (m, generated (bytes "Default mock response"))
    else answer_with m messages (get_elem? m.responses (m.response_index % length m.responses))
