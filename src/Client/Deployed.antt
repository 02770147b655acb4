-- ===== src/Client/Deployed.antt =====
-- The client of cmd/client/main.go at the server of cmd/server/main.go: its calls carry its API
-- key, and pass the interceptors and the handlers.
pub mod Shown
pub mod Answered
use microchat_ai.Prelude.{
  ℕ, suc, none, some, Bytes, bytes, List, [], ◌∷◌, ◌++◌, Outcome, returns, panics, diverges, Option,
}
use microchat_ai.GoMap.{GoMap}
use microchat_ai.Grpc.{Context, Result, ok, err}
use microchat_ai.RateLimit.{Rate}
use microchat_ai.Handlers.{Server}
use microchat_ai.Handlers.Chat.{ChatRequest, ChatResponse}
use microchat_ai.Handlers.Chat.Alone.{alone}
use microchat_ai.Client.Metrics.Sums.{Traffic}
use microchat_ai.Client.Chat.{Service, Reply, replied, refused, broken}
use microchat_ai.Service.{Running, Times, serve_chat, serve_start_session}

-- addAuthContext, as the server gets it from the client's address.
unfoldable pub add_auth_context : Bytes → Option Bytes → Context
add_auth_context api_key peer = record {
  metadata = some ((bytes "authorization", (bytes "Bearer " ++ api_key) ∷ []) ∷ []);
  peer = peer;
  api_key = none;
  user_role = none;
}

-- The server, and how many calls there were.
pub record Live (rate : Rate) : Type 0 where
  pub running : Running rate
  pub count : ℕ

-- What the calls meet, by their number: their times, the new ids, and what the counters see.
pub record Setting : Type 0 where
  pub times : ℕ → Times
  pub ids : ℕ → Bytes
  pub traffic : ℕ → List Traffic
  pub peer : Option Bytes

module _ (rate : Rate) (server : Server) (api_keys : GoMap Bytes) (setting : Setting)
    (api_key : Bytes) where
  abbrev pub reply_of {ℓ} : {A : Type ℓ} → Result A → Reply A
  reply_of (ok a) = replied a
  reply_of (err status) = refused status

  abbrev pub next : Live rate → Running rate → Live rate
  next live r = record { running = r; count = suc live.count }

  -- A server that does not return breaks the connection.
  abbrev pub ended :
      Live rate
      → Outcome (Running rate × Result ChatResponse)
      → Live rate × List Traffic × Reply ChatResponse
  ended live (returns (r, result)) = (next live r, setting.traffic live.count, reply_of result)
  ended live panics = (live, [], broken)
  ended live diverges = (live, [], broken)

  abbrev pub context : Context
  context = add_auth_context api_key setting.peer

  abbrev pub deployed : Service (Live rate)
  deployed = record {
    start_session = λ live.
        let (r, result) =
          serve_start_session rate server api_keys live.running (setting.times live.count) context
            (setting.ids live.count) in
        (next live r, setting.traffic live.count, reply_of result);
    chat = λ live req.
        ended live (
          serve_chat rate server api_keys live.running (setting.times live.count) alone context
            req);
  }
