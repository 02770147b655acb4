-- ===== src/Handlers/History.antt =====
-- GetHistory of cmd/server/grpc_handlers.go.
use microchat_ai.Prelude.{none, Bytes, List, some}
use microchat_ai.Handlers.{Server, Application}
use microchat_ai.Grpc.{Result, err, ok}
use microchat_ai.Handlers.Validate.{validate_session_id}
use microchat_ai.Store.{get_formatted_messages}

pub record HistoryResponse : Type 0 where
  pub session_id : Bytes
  pub messages : List Bytes

-- It only reads the store.
unfoldable pub get_history : Server → Application → Bytes → Result HistoryResponse
get_history server app session_id = elim (validate_session_id server.parse_uuid session_id) [
  | some status ↦ err status
  | none ↦ ok (record {
    session_id = session_id;
    messages = get_formatted_messages app.session_store session_id;
  })
]
