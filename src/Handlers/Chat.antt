-- ===== src/Handlers/Chat.antt =====
-- Chat of cmd/server/grpc_handlers.go. Between its calls on the store, any calls of other requests
-- may run.
pub mod Total
pub mod Alone
pub mod Contract
pub mod Correct
pub mod RoundTrip
use microchat_ai.Prelude.{
  none, ◌>>=◌, ℕ, Bytes, List, ◌%◌, ℤ, All, bytes, ◌^◌, Outcome, ◌+◌, Option, returns, ◌++◌, some,
  decimal_ℤ, length, if◌then◌else◌,
}
use microchat_ai.Store.{
  AppendError, SessionStore, message_limit_exceeded, session_size_limit_exceeded,
  invalid_session_id, is_valid_session, append_message, get_messages_as_llm_format, get_messages,
}
use microchat_ai.Handlers.{
  Application, Server, emit, llm_error, grpc_error, request_size, with_store,
}
use microchat_ai.Llm.{Generated, failed, generated}
use microchat_ai.Store.History.{Call, run}
use microchat_ai.Grpc.{Result, Status, fails, err, resource_exhausted, internal, ok, not_found}
use microchat_ai.Handlers.Validate.{validate_session_id, validate_message, validate_response}
use microchat_ai.Handlers.Sanitize.{sanitize_for_terminal}
use microchat_ai.Session.{assistant, user}

pub record ChatRequest : Type 0 where
  pub session_id : Bytes
  pub model : ℤ
  pub message : Bytes
  pub message_index : ℕ

pub record ChatResponse : Type 0 where
  pub session_id : Bytes
  pub reply : Bytes
  pub message_count : ℕ

-- The calls of other requests between two calls of this one.
pub record Others : Type 0 where
  pub before_count : List Call
  pub before_message : List Call
  pub before_context : List Call
  pub before_reply : List Call

unfoldable pub append_error_text : AppendError → Bytes
append_error_text invalid_session_id =
    bytes "invalid session ID: session not found or not properly created"
append_error_text (message_limit_exceeded limit) =
    bytes "session message limit exceeded: maximum "
    ++ decimal_ℤ limit
    ++ bytes " messages per session"
append_error_text (session_size_limit_exceeded limit) =
    bytes "session size limit exceeded: maximum " ++ decimal_ℤ limit ++ bytes " bytes per session"

abbrev ChatResult : Type 0
ChatResult = Application × Result ChatResponse

abbrev chat_method : Bytes
chat_method = bytes "Chat"

-- uint32(len(currentMessages)), and + 2.
unfoldable pub next_count : ℕ → ℕ
next_count n = (n % 2 ^ 32 + 2) % 2 ^ 32

-- The end of Chat: the reply is appended, and the response is built.
unfoldable pub answer :
    Application → ChatRequest → ℕ → Bytes → SessionStore × Option AppendError → ChatResult
unfolding append_error_text next_count
answer app req current reply (s, some error) = (
  with_store app s,
  fails resource_exhausted (bytes "failed to store response: " ++ append_error_text error),
)
answer app req current reply (s, none) = (
  with_store app s,
  ok (record { session_id = req.session_id; reply = reply; message_count = next_count current }),
)

unfoldable pub store_reply : Others → ℕ → Application → ChatRequest → ℕ → Bytes → Outcome ChatResult
unfolding answer
store_reply others now app req current reply = do
  s ← run app.session_store others.before_reply
  r ← append_message s now req.session_id assistant reply
  returns (answer app req current reply r)

-- What the check of the reply leads to.
unfoldable pub accept_checked :
    Others → ℕ → Application → ChatRequest → ℕ → Bytes → Option Status → Outcome ChatResult
unfolding store_reply
accept_checked others now app req current reply (some status) =
    returns (emit app (grpc_error chat_method (bytes "ResourceExhausted")), err status)
accept_checked others now app req current reply none =
    store_reply others now app req current (sanitize_for_terminal reply)

unfoldable pub accept :
    Server → Others → ℕ → Application → ChatRequest → ℕ → Bytes → Generated → Outcome ChatResult
unfolding accept_checked
accept server others now app req current name (failed error) = returns (
  emit (emit app (llm_error name (bytes "api_error"))) (grpc_error chat_method (bytes "Internal")),
  fails internal (bytes "LLM provider failed: " ++ error),
)
accept server others now app req current name (generated reply) =
    accept_checked others now app req current reply
      (validate_response server.max_response_size_kb reply)

-- The provider is asked with the history of the session.
unfoldable pub ask : Server → Others → ℕ → Application → ChatRequest → ℕ → Outcome ChatResult
unfolding accept
ask server others now app req current = do
  s ← run app.session_store others.before_context
  let provider = server.get_provider req.model
  accept server others now (with_store app s) req current provider.name
      (provider.generate_response (get_messages_as_llm_format s req.session_id))

unfoldable pub ask_stored :
    Server
    → Others
    → ℕ
    → Application
    → ChatRequest
    → ℕ
    → SessionStore × Option AppendError
    → Outcome ChatResult
unfolding ask append_error_text
ask_stored server others now app req current (s, some error) = returns (
  with_store app s,
  fails resource_exhausted (bytes "failed to store message: " ++ append_error_text error),
)
ask_stored server others now app req current (s, none) =
    ask server others now (with_store app s) req current

-- From the count of the messages on.
unfoldable pub converse : Server → Others → ℕ → ℕ → Application → ChatRequest → Outcome ChatResult
unfolding ask_stored
converse server others now now' app req = do
  s ← run app.session_store others.before_count
  s' ← run s others.before_message
  r ← append_message s' now req.session_id user req.message
  ask_stored server others now' app req (length (get_messages s req.session_id)) r

abbrev invalid : Application → Status → Outcome ChatResult
invalid app status =
    returns (emit app (grpc_error chat_method (bytes "InvalidArgument")), err status)

-- What the checks of the id and of the message lead to.
unfoldable pub chat_checked :
    Server
    → Others
    → ℕ
    → ℕ
    → Application
    → ChatRequest
    → Option Status
    → Option Status
    → Outcome ChatResult
unfolding converse
chat_checked server others now now' app req (some status) message_error = invalid app status
chat_checked server others now now' app req none (some status) = invalid app status
chat_checked server others now now' app req none none =
    let rest = converse server others now now' app req in
    if is_valid_session app.session_store req.session_id
    then rest
    else returns (
      emit app (grpc_error chat_method (bytes "NotFound")),
      fails not_found (bytes "session not found or not properly created"),
    )

-- `now` and `now'` are the times of the two appends.
unfoldable pub chat : Server → Others → ℕ → ℕ → Application → ChatRequest → Outcome ChatResult
unfolding chat_checked
chat server others now now' app req =
    chat_checked server others now now' (emit app (request_size chat_method (length req.message)))
      req (validate_session_id server.parse_uuid req.session_id) (validate_message req.message)
