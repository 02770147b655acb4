-- ===== src/Client/Chat.antt =====
-- cmd/client/main.go: the choice of the model, the test for a production server, the connection
-- with its retries, and the loop over the lines of the user.
pub mod Commands
pub mod Connect
use microchat_ai.Client.Metrics.Sums.{Traffic, apply_all}
use microchat_ai.Prelude.{
  length, ℕ, none, some, zero, suc, Bytes, Option, List, if◌then◌else◌, ◌∷◌, ℤ, Bool, ◌^◌, bytes,
  ite, leb, Bytes_discrete, false, ◌+◌, true, ◌&&◌, pos, [], not,
}
use microchat_ai.Grpc.{Status, Code, internal, unavailable}
use microchat_ai.Client.Metrics.{reset_session_metrics, get_message_totals_and_reset, Metrics}
use microchat_ai.Client.Metrics.Sums.{apply_all}
use microchat_ai.Handlers.Chat.{ChatResponse, ChatRequest}
use microchat_ai.Net.{split_host_port, trim_space, contains_byte}
use microchat_ai.Net.Ip.{is_ip}

-- strings.ToLower on ASCII. No letter outside it has one of the letters of "echo" as its lower
-- case, and every other text stands for the default.
unfoldable pub to_lower : Bytes → Bytes
to_lower [] = []
to_lower (c ∷ s) =
    let rest = to_lower s in if leb b'A' c && leb c b'Z' then (c + 32) ∷ rest else c ∷ rest

-- 0 is GEMINI_2_5_FLASH_LITE and 1 is ECHO.
unfoldable pub parse_model : Bytes → ℤ
unfolding to_lower
parse_model model = ite (Bytes_discrete (to_lower model) (bytes "echo")) (pos 1) (pos 0)

abbrev is_local : Bytes → Bool
is_local host = ite (Bytes_discrete host (bytes "localhost")) true (
    ite (Bytes_discrete host (bytes "127.0.0.1")) true
      (ite (Bytes_discrete host (bytes "::1")) true false))

abbrev is_public : Option (Bytes × Bytes) → Bool
is_public none = false
is_public (some (host, port)) =
    if is_local host then false else contains_byte b'.' host && not (is_ip host)

unfoldable pub is_production_server : Bytes → Bool
is_production_server server_addr = is_public (split_host_port server_addr)

-- The sleep before an attempt that is not the first, in seconds.
abbrev pub delay : ℕ → ℕ
delay zero = 0
delay (suc n) = 2 ^ n

abbrev pub max_retries : ℕ
max_retries = 3

-- What follows an attempt that is not the last: nothing, or the rest of the loop.
abbrev pub or_retry : Option Bytes → Option Bytes × ℕ → Option Bytes × ℕ
or_retry none rest = (none, 0)
or_retry (some error) rest = rest

-- `for attempt := 0; attempt <= maxRetries; attempt++`, with `left` retries to go:
-- `attempt_connect` is the error of an attempt, if it fails. The result is the last error, and the
-- seconds that the loop sleeps.
unfoldable pub connect_from : (ℕ → Option Bytes) → ℕ → ℕ → Option Bytes × ℕ
connect_from attempt_connect zero attempt = (attempt_connect attempt, delay attempt)
connect_from attempt_connect (suc left) attempt =
    let (error, slept) =
      or_retry (attempt_connect attempt) (connect_from attempt_connect left (suc attempt)) in
    (error, delay attempt + slept)

unfoldable pub connect : (ℕ → Option Bytes) → Option Bytes × ℕ
unfolding connect_from
connect attempt_connect = connect_from attempt_connect max_retries 0

-- What a call of the service leads to: a reply, a gRPC status, or another error.
pub data Reply {ℓ} (A : Type ℓ) : Type ℓ where
  replied : A → Reply A
  refused : Status → Reply A
  broken : Reply A

-- The service, over its state `S`; each call also says what the counters see of it.
pub record Service (S : Type 0) : Type 0 where
  pub start_session : S → S × List Traffic × Reply Bytes
  pub chat : S → ChatRequest → S × List Traffic × Reply ChatResponse

-- `displays` says whether any of the three metrics flags is set.
pub record Client : Type 0 where
  pub session_id : Bytes
  pub model : ℤ
  pub message_index : ℕ
  pub metrics : Metrics
  pub displays : Bool

-- What the user sees, the prompt and the metrics left out; the flag of an error says whether the
-- server is experiencing issues.
pub data Shown : Type 0 where
  assistant_says : Bytes → Shown
  error_says : Bytes → Bool → Shown
  connection_failed session_cleared clear_failed input_failed : Shown

-- displayMetrics resets the counters of the message on each of its paths.
abbrev pub display_metrics : Client → Client
display_metrics c = record c {
  metrics = if c.displays then (get_message_totals_and_reset c.metrics).0 else c.metrics;
}

abbrev pub saw : Client → List Traffic → Client
saw c events = record c { metrics = apply_all c.metrics events }

abbrev is_issue : Code → Bool
is_issue internal = true
is_issue unavailable = true
is_issue _ = false

-- resetSession, from the reply on, with what the loop shows.
unfoldable pub reset_session : Client → Reply Bytes → Client × Shown
unfolding reset_session_metrics get_message_totals_and_reset
reset_session c (replied id) = (
  display_metrics
      (record c { session_id = id; message_index = 0; metrics = reset_session_metrics c.metrics }),
  session_cleared,
)
reset_session c _ = (c, clear_failed)

-- sendMessage, from the reply on, with what the loop shows.
unfoldable pub receive : Client → Reply ChatResponse → Client × Shown
unfolding get_message_totals_and_reset
receive c (replied response) = (
  display_metrics (record c { message_index = response.message_count }),
  assistant_says response.reply,
)
receive c (refused status) = (c, error_says status.message (is_issue status.code))
receive c broken = (c, connection_failed)

abbrev pub quit_command : Bytes
quit_command = bytes "/quit"

abbrev pub clear_command : Bytes
clear_command = bytes "/clear"

-- bufio.ErrTooLong: 64 KiB without a newline fill the buffer of the scanner.
abbrev pub is_too_long : Bytes → Bool
is_too_long line = leb 65536 (length line)

module _ {S : Type 0} (service : Service S) where
  unfoldable pub clear : Client → S → Client × S × Shown
  unfolding reset_session apply_all
  clear c s =
      let (s', events, reply) = service.start_session s in
      let (c', shown) = reset_session (saw c events) reply in (c', s', shown)

  unfoldable pub send_message : Client → S → Bytes → Client × S × Shown
  unfolding receive apply_all
  send_message c s message =
      let (s', events, reply) = service.chat s (record {
        session_id = c.session_id;
        model = c.model;
        message = message;
        message_index = c.message_index;
      }) in
      let (c', shown) = receive (saw c events) reply in (c', s', shown)

  -- One line that is neither empty nor the command to quit.
  unfoldable pub respond : Client → S → Bytes → Client × S × Shown
  unfolding clear send_message
  respond c s input = ite (Bytes_discrete input clear_command) (clear c s) (send_message c s input)

  -- The loop of startChat, over the lines of an input whose reads succeed. The scanner ends at a
  -- line that it cannot hold, and its error is reported.
  unfoldable pub start_chat : Client → S → List Bytes → Client × S × List Shown
  unfolding respond
  start_chat c s [] = (c, s, [])
  start_chat c s (line ∷ lines) =
      let input = trim_space line in
      let skipped = start_chat c s lines in
      let (c', s', shown) = respond c s input in
      let (c'', s'', more) = start_chat c' s' lines in
      if is_too_long line
      then (c, s, input_failed ∷ [])
      else ite (Bytes_discrete input []) skipped
          (ite (Bytes_discrete input quit_command) (c, s, []) (c'', s'', shown ∷ more))
