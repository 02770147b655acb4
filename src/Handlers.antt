-- ===== src/Handlers.antt =====
-- cmd/server/grpc_handlers.go: the four methods of ChatService. A handler is a function of the
-- server's state; its metrics are the list of those it emits, its log lines are left out.
pub mod Sanitize
pub mod Validate
pub mod Chat
pub mod History
pub mod Start
use microchat_ai.Prelude.{ℕ, ℤ, Bytes, bytes, Option, List, Bool, true, ◌++◌, ◌∷◌, []}
use microchat_ai.Store.{SessionStore, LlmMessage, register_session, get_session_count}
use microchat_ai.Llm.{Provider}

-- What the handlers use of other code: uuid.Parse, the provider for a model, and the environment
-- variable MAX_RESPONSE_SIZE_KB (empty if it is not set).
pub record Server : Type 0 where
  pub parse_uuid : Bytes → Option Bytes
  pub get_provider : ℤ → Provider
  pub max_response_size_kb : Bytes

pub data Metric : Type 0 where
  request_size : Bytes → ℕ → Metric
  grpc_error llm_error : Bytes → Bytes → Metric
  session_created : Metric
  active_sessions : ℕ → Metric

pub record Application : Type 0 where
  pub session_store : SessionStore
  pub metrics : List Metric

abbrev pub emit : Application → Metric → Application
emit app metric = record app { metrics = app.metrics ++ metric ∷ [] }

abbrev pub with_store : Application → SessionStore → Application
with_store app s = record app { session_store = s }

-- `session_id` is the text of uuid.New().
unfoldable pub start_session : Application → Bytes → Application × Bytes
start_session app session_id =
    let app = with_store app (register_session app.session_store session_id) in
    (
      emit (emit app session_created) (active_sessions (get_session_count app.session_store)),
      session_id,
    )

unfoldable pub health : Bool
health = true
