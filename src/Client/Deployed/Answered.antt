-- ===== src/Client/Deployed/Answered.antt =====
-- The loop of the client at a running server.
use microchat_ai.Prelude.{
  Bool, true, false, if◌then◌else◌, ite_both, ℕ, suc, Bytes, List, [], ◌∷◌, ◌≡◌, refl, length, ite,
  Bytes_discrete, All, ap,
}
use microchat_ai.GoMap.{GoMap}
use microchat_ai.Net.{trim_space}
use microchat_ai.RateLimit.{Rate}
use microchat_ai.Handlers.{Server}
use microchat_ai.Handlers.Chat.{ChatResponse}
use microchat_ai.Handlers.Chat.Alone.{alone}
use microchat_ai.Grpc.{Result, ok, err}
use microchat_ai.Service.{
  serve_chat, serve_start_session, chat_method, start_session_method, passed,
}
use microchat_ai.Service.Answers.{IsUp, start-IsUp, converse-IsUp}
use microchat_ai.Client.Chat.{
  is_too_long, input_failed, Reply, replied, refused, broken, send_message, receive, reset_session,
  Client, Shown, connection_failed, saw, start_chat, respond, clear, quit_command, clear_command,
}
use microchat_ai.Client.Chat.Commands.{request_of}
use microchat_ai.Client.Deployed.{deployed, reply_of, Live, Setting, add_auth_context}

-- The lines that are answered: those that are not empty, up to the command to quit, or up to and
-- with a line that is too long for the scanner.
abbrev pub answered_lines : List Bytes → ℕ
answered_lines [] = 0
answered_lines (line ∷ lines) =
    let rest = answered_lines lines in
    if is_too_long line
    then 1
    else ite (Bytes_discrete (trim_space line) []) rest
        (ite (Bytes_discrete (trim_space line) quit_command) 0 (suc rest))

abbrev pub IsAnswer : Shown → Type 0
IsAnswer connection_failed = ⊥
IsAnswer _ = Unit

abbrev IsReply : Reply ChatResponse → Type 0
IsReply broken = ⊥
IsReply _ = Unit

receive-IsAnswer :
    (c : Client) (reply : Reply ChatResponse) → IsReply reply → IsAnswer (receive c reply).1
unfolding receive
receive-IsAnswer c (replied response) h = tt
receive-IsAnswer c (refused status) h = tt
receive-IsAnswer c broken h = h

reset_session-IsAnswer : (c : Client) (reply : Reply Bytes) → IsAnswer (reset_session c reply).1
unfolding reset_session
reset_session-IsAnswer c (replied id) = tt
reset_session-IsAnswer c (refused status) = tt
reset_session-IsAnswer c broken = tt

module _ (rate : Rate) (server : Server) (api_keys : GoMap Bytes) (setting : Setting)
    (api_key : Bytes) where
  abbrev pub IsLive : Live rate → Type 0
  IsLive live = IsUp rate server api_keys live.running

  -- What a step of the loop leaves.
  abbrev Fine : Client × Live rate × Shown → Type 0
  Fine (c, live, shown) = IsLive live × IsAnswer shown

  reply_of-IsReply :
      (result : Result ChatResponse)
      → IsReply (reply_of rate server api_keys setting api_key result)
  reply_of-IsReply (ok response) = tt
  reply_of-IsReply (err status) = tt

  send_message-Fine :
      (c : Client) (live : Live rate) (message : Bytes)
      → IsLive live
      → Fine (send_message (deployed rate server api_keys setting api_key) c live message)
  unfolding send_message serve_chat
  send_message-Fine c live message g =
      let ctx = add_auth_context api_key setting.peer in
      let t = setting.times live.count in
      let (a, e, h, _) =
        converse-IsUp rate server api_keys live.running t alone (request_of c message)
          (passed rate server api_keys live.running t chat_method ctx) g in
      rw e (h, receive-IsAnswer (saw c (setting.traffic live.count)) _ (reply_of-IsReply a.1))

  clear-Fine :
      (c : Client) (live : Live rate)
      → IsLive live
      → Fine (clear (deployed rate server api_keys setting api_key) c live)
  unfolding clear serve_start_session
  clear-Fine c live g =
      let ctx = add_auth_context api_key setting.peer in
      let t = setting.times live.count in
      (
        start-IsUp rate server api_keys live.running (setting.ids live.count)
            (passed rate server api_keys live.running t start_session_method ctx) g,
        reset_session-IsAnswer (saw c (setting.traffic live.count)) _,
      )

  respond-Fine :
      (c : Client) (live : Live rate) (input : Bytes)
      → IsLive live
      → Fine (respond (deployed rate server api_keys setting api_key) c live input)
  unfolding respond
  respond-Fine c live input g =
      ite_both Fine (Bytes_discrete input clear_command) (clear-Fine c live g)
        (send_message-Fine c live input g)

  -- The loop has come to an end with `n` answers.
  abbrev pub Ran : ℕ → Client × Live rate × List Shown → Type 0
  Ran n r = IsLive r.1 × (length r.2 ≡ n) × All IsAnswer r.2

  either-Ran :
      {P Q : Type 0} (long : Bool) (skips : Dec P) (quits : Dec Q) {m n : ℕ}
      (a b c d : Client × Live rate × List Shown)
      → Ran m a
      → Ran 0 b
      → Ran n c
      → Ran 1 d
      → Ran
          (if long then 1 else ite skips m (ite quits 0 n))
          (if long then d else ite skips a (ite quits b c))
  either-Ran true skips quits a b c d x y z w = w
  either-Ran false (yes p) quits a b c d x y z w = x
  either-Ran false (no p) (yes q) a b c d x y z w = y
  either-Ran false (no p) (no q) a b c d x y z w = z

  -- At a running server with a sound store, for any lines of an input whose reads succeed, and
  -- whether the calls succeed or are refused: the loop of the client comes to an end, and shows one
  -- answer for each line that is not empty, up to the command to quit, or up to the first line of
  -- 64 KiB or more, which it answers with the error of the scanner; no call breaks the connection,
  -- and the store stays sound.
  pub start_chat-Ran :
      (lines : List Bytes) (c : Client) (live : Live rate)
      → IsLive live
      → Ran
          (answered_lines lines)
          (start_chat (deployed rate server api_keys setting api_key) c live lines)
  unfolding start_chat
  start_chat-Ran [] c live g = (g, refl, tt)
  start_chat-Ran (line ∷ lines) c live g =
      let service = deployed rate server api_keys setting api_key in
      let input = trim_space line in
      let (c', live', shown) = respond service c live input in
      let (c'', live'', more) = start_chat service c' live' lines in
      let (up, fine) = respond-Fine c live input g in
      let (up', all, answers) = start_chat-Ran lines c' live' up in
      either-Ran (is_too_long line) (Bytes_discrete input []) (Bytes_discrete input quit_command)
        (start_chat service c live lines) (c, live, []) (c'', live'', shown ∷ more)
        (c, live, input_failed ∷ []) (start_chat-Ran lines c live g) (g, refl, tt)
        (up', ap suc all, (fine, answers)) (g, refl, (tt, tt))
