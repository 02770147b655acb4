-- ===== src/Session.antt =====
-- cmd/server/session_store.go: Role, Message, Session and the size of a session.
use microchat_ai.Prelude.{
  ℕ, ◌+◌, ◌≡◌, arith, List, [], ◌∷◌, ℤ, length, Bytes, bytes, ◌/◌, ◌++◌, ◌%◌, ◌^◌,
}

-- `other` stands for the integers that no constant names.
pub data Role : Type 0 where
  user assistant system : Role
  other : ℤ → Role

unfoldable pub role_string : Role → Bytes
role_string user = bytes "user"
role_string assistant = bytes "assistant"
role_string system = bytes "system"
role_string (other r) = bytes "unknown"

-- A time is the number of nanoseconds since the Unix epoch, in UTC.
pub record Message : Type 0 where
  pub role : Role
  pub text : Bytes
  pub timestamp : ℕ

pub record Session : Type 0 where
  pub messages : List Message
  pub last_active : ℕ

-- A number below 100, in two digits.
two_digits : ℕ → Bytes
two_digits n = (b'0' + n / 10) ∷ (b'0' + n % 10) ∷ []

-- Format("15:04:05") of a time.
clock : ℕ → Bytes
unfolding two_digits
clock timestamp =
    two_digits (seconds / 3600 % 24)
    ++ b':' ∷ two_digits (seconds / 60 % 60)
    ++ b':' ∷ two_digits (seconds % 60)
  where
    seconds : ℕ
    seconds = timestamp / 10 ^ 9

unfoldable pub formatted_string : Message → Bytes
unfolding clock role_string
formatted_string m =
    role_string m.role ++ bytes " [" ++ clock m.timestamp ++ bytes " UTC]: " ++ m.text

-- What one message adds to the size.
abbrev pub message_size : Role → Bytes → ℕ
message_size role text = length text + length (role_string role) + 24

-- The loop of getSessionSize, from `size` on.
unfoldable pub add_sizes : ℕ → List Message → ℕ
add_sizes size [] = size
add_sizes size (msg ∷ rest) = add_sizes (size + message_size msg.role msg.text) rest

unfoldable pub get_session_size : Session → ℕ
unfolding add_sizes
get_session_size session = add_sizes 0 session.messages

-- The size of a history, message by message.
abbrev pub total_size : List Message → ℕ
total_size [] = 0
total_size (msg ∷ rest) = message_size msg.role msg.text + total_size rest

add_sizes-total_size : (n : ℕ) (ms : List Message) → add_sizes n ms ≡ n + total_size ms
unfolding add_sizes
add_sizes-total_size n [] = omega arith
add_sizes-total_size n (m ∷ ms) =
    omega (arith, add_sizes-total_size (n + message_size m.role m.text) ms)

-- The loop computes the sum.
pub get_session_size-total_size :
    (session : Session) → get_session_size session ≡ total_size session.messages
unfolding get_session_size
get_session_size-total_size session = omega (arith, add_sizes-total_size 0 session.messages)
