-- ===== src/Handlers/Validate.antt =====
-- cmd/server/grpc_handlers.go: the checks on what a client sends and on what a model answers.
use microchat_ai.Prelude.{
  ℕ, Bytes, ◌*◌, Option, ℤ, ◌∷◌, ◌≤◌, ◌≡◌, some, atoi, if◌then◌else◌, none, pos, [], ltb, ◌↔◌,
  bytes, ◌&&◌, length, ◌++◌, leb, arith, decimal, negsuc,
}
use microchat_ai.Grpc.{Status, invalid_argument, resource_exhausted}

-- `parse_uuid` is uuid.Parse: no error, or the error's text.
unfoldable pub validate_session_id : (Bytes → Option Bytes) → Bytes → Option Status
validate_session_id parse_uuid [] =
    some (record { code = invalid_argument; message = bytes "session ID cannot be empty" })
validate_session_id parse_uuid (c ∷ s) = elim (parse_uuid (c ∷ s)) [
  | none ↦ none
  | some error ↦
      some
        (record { code = invalid_argument; message = bytes "invalid session ID format: " ++ error })
]

abbrev pub max_message_size : ℕ
max_message_size = 10 * 1024

unfoldable pub validate_message : Bytes → Option Status
validate_message [] =
    some (record { code = invalid_argument; message = bytes "message cannot be empty" })
validate_message (c ∷ s) =
    if ltb max_message_size (length (c ∷ s))
    then some (record {
      code = invalid_argument;
      message =
          bytes "message too large: "
          ++ decimal (length (c ∷ s))
          ++ bytes " bytes (max "
          ++ decimal max_message_size
          ++ bytes ")";
    })
    else none

-- The size in KB that the variable asks for, if it is one that the code accepts.
accepted_kb : Option ℤ → ℕ
accepted_kb (some (pos n)) = if ltb 0 n && leb n 1024 then n else 50
accepted_kb (some (negsuc n)) = 50
accepted_kb none = 50

-- `max_size_env` is the value of MAX_RESPONSE_SIZE_KB, empty if it is not set.
unfoldable pub max_response_size : Bytes → ℕ
unfolding accepted_kb
max_response_size [] = 50 * 1024
max_response_size (c ∷ s) = accepted_kb (atoi (c ∷ s)) * 1024

unfoldable pub validate_response : Bytes → Bytes → Option Status
validate_response max_size_env response =
    if ltb (max_response_size max_size_env) (length response)
    then some (record {
      code = resource_exhausted;
      message =
          bytes "response too large: "
          ++ decimal (length response)
          ++ bytes " bytes (max "
          ++ decimal (max_response_size max_size_env)
          ++ bytes ")";
    })
    else none

accepted_kb-bounded : (o : Option ℤ) → (1 ≤ accepted_kb o) × (accepted_kb o ≤ 1024)
unfolding accepted_kb
accepted_kb-bounded none = ground arith
accepted_kb-bounded (some (pos n)) = ground arith
accepted_kb-bounded (some (negsuc n)) = ground arith

-- The limit on a response is between 1 KB and 1024 KB, whatever the environment says.
max_response_size-bounded :
    (env : Bytes) → (1024 ≤ max_response_size env) × (max_response_size env ≤ 1024 * 1024)
unfolding max_response_size
max_response_size-bounded [] = ground arith
max_response_size-bounded (c ∷ s) = ground (arith, accepted_kb-bounded (atoi (c ∷ s)))

-- A message passes exactly if it has between 1 and 10240 bytes.
validate_message_iff :
    (message : Bytes)
    → (validate_message message ≡ none) ↔ ((1 ≤ length message) × (length message ≤ 10240))
unfolding validate_message
validate_message_iff [] = ground arith
validate_message_iff (c ∷ s) = ground arith

pub validate_session_id-code :
    (parse_uuid : Bytes → Option Bytes) (id : Bytes) (status : Status)
    → validate_session_id parse_uuid id ≡ some status
    → status.code ≡ invalid_argument
unfolding validate_session_id
validate_session_id-code parse_uuid [] status e = ground arith
validate_session_id-code parse_uuid (c ∷ s) status e = ground arith

pub validate_message-code :
    (message : Bytes) (status : Status)
    → validate_message message ≡ some status
    → status.code ≡ invalid_argument
unfolding validate_message
validate_message-code [] status e = ground arith
validate_message-code (c ∷ s) status e = ground arith
