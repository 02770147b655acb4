-- ===== src/Tests/Handlers.antt =====
-- Runs of the handlers.
use microchat_ai.Prelude.{
  ◌≡◌, refl, bytes, [], ◌∷◌, pos, none, returns, All, ◌++◌, Bytes_discrete, ℕ_discrete,
}
use microchat_ai.Handlers.{Server, Application, request_size}
use microchat_ai.Llm.{Provider, generated}
use microchat_ai.Tests.Store.{store_ab, store_ab-IsSound, b_id, a_id, session, said}
use microchat_ai.Handlers.Chat.{ChatRequest, Others, ChatResponse, chat}
use microchat_ai.Grpc.{Result, ok}
use microchat_ai.Handlers.Sanitize.Safe.{IsSafe, sanitize_for_terminal-IsSafe}
use microchat_ai.Handlers.Sanitize.{sanitize_for_terminal}
use microchat_ai.Handlers.Validate.{
  max_response_size, validate_session_id, validate_message, validate_response,
}
use microchat_ai.Session.{
  formatted_string, user, assistant, get_session_size, add_sizes, role_string,
}
use microchat_ai.Handlers.Chat.Alone.{alone}
use microchat_ai.Store.History.{cleans, IsSound, run}
use microchat_ai.Handlers.Chat.Contract.{Ended}
use microchat_ai.Handlers.Chat.Correct.{chat-Ended}
use microchat_ai.Handlers.Chat.Total.{Belongs, chat-returns}
use microchat_ai.Store.{
  append_message, is_valid_session, get_messages, ensure_session, append_to_session,
  update_session_order, remove_first, get_messages_as_llm_format,
}
use microchat_ai.GoMap.{get, has, put}

-- A provider whose answer holds an escape sequence.
abbrev pub provider : Provider
provider = record {
  name = bytes "test";
  generate_response = λ messages. generated (0x1b ∷ bytes "[31mok");
}

abbrev pub server : Server
server = record {
  parse_uuid = λ id. none;
  get_provider = λ model. provider;
  max_response_size_kb = [];
}

abbrev pub app : Application
app = record { session_store = store_ab; metrics = [] }

abbrev pub request : ChatRequest
request = record { session_id = b_id; model = pos 0; message = bytes "hi"; message_index = 1 }

chat-Ended_example :
    (r : Application × Result ChatResponse) × (chat server alone 3 4 app request ≡ returns r)
    × Ended server 3 4 store_ab request r
chat-Ended_example = chat-Ended server 3 4 app request store_ab-IsSound

abbrev pub after : Application
after = record {
  session_store = record store_ab {
    sessions =
        (a_id, session (said user (bytes "x") 1))
        ∷ (
          b_id,
          record {
            messages =
                said user (bytes "y") 2
                ∷ said user (bytes "hi") 3
                ∷ said assistant (bytes "ok") 4
                ∷ [];
            last_active = 4;
          },
        )
        ∷ [];
  };
  metrics = request_size (bytes "Chat") 2 ∷ [];
}

abbrev pub answered_ok : ChatResponse
answered_ok = record { session_id = b_id; reply = bytes "ok"; message_count = 3 }

pub chatted : chat server alone 3 4 app request ≡ returns (after, ok answered_ok)
unfolding chat append_message is_valid_session get_messages ensure_session has get put
    Bytes_discrete ℕ_discrete append_to_session get_session_size add_sizes role_string
    update_session_order remove_first validate_session_id validate_message validate_response
    max_response_size sanitize_for_terminal get_messages_as_llm_format run
chatted = refl

-- The session is cleaned up while the provider answers.
abbrev cleaned : Others
cleaned = record alone { before_reply = cleans 100 ∷ [] }

chat-returns_example :
    (r : Application × Result ChatResponse) × (chat server cleaned 3 101 app request ≡ returns r)
    × IsSound (r.0).session_store
    × Belongs request r.1
chat-returns_example = chat-returns server cleaned 3 101 app request store_ab-IsSound

sanitize_for_terminal-IsSafe_example : All IsSafe (sanitize_for_terminal (0x1b ∷ bytes "[31mok"))
sanitize_for_terminal-IsSafe_example = sanitize_for_terminal-IsSafe (0x1b ∷ bytes "[31mok")

-- The escape sequence goes, and DEL stays.
sanitized : sanitize_for_terminal (0x1b ∷ bytes "[31mok" ++ 127 ∷ 7 ∷ []) ≡ bytes "ok" ++ 127 ∷ []
unfolding sanitize_for_terminal
sanitized = refl

clocks :
    formatted_string (record { role = user; text = bytes "x"; timestamp = 3_661_000_000_000 })
    ≡ bytes "user [01:01:01 UTC]: x"
unfolding formatted_string
clocks = refl
