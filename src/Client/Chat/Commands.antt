-- ===== src/Client/Chat/Commands.antt =====
-- The commands of the user.
use microchat_ai.Prelude.{ℕ, refl, List, Bytes, ◌≡◌, ◌++◌, ◌∷◌, [], arith}
use microchat_ai.Client.Chat.{
  broken, respond, Service, start_chat, clear, send_message, reset_session, receive, Client,
  quit_command, replied, Reply, saw, refused,
}
use microchat_ai.Client.Metrics.{get_message_totals_and_reset, reset_session_metrics, zeros}
use microchat_ai.Net.{trim_space}
use microchat_ai.Client.Metrics.Sums.{Traffic, apply_all}
use microchat_ai.Handlers.Chat.{ChatRequest, ChatResponse}

abbrev pub request_of : Client → Bytes → ChatRequest
request_of c message = record {
  session_id = c.session_id;
  model = c.model;
  message = message;
  message_index = c.message_index;
}

abbrev index_after : Client → Reply ChatResponse → ℕ
index_after c (replied response) = response.message_count
index_after c (refused status) = c.message_index
index_after c broken = c.message_index

message_index-receive :
    (c : Client) (reply : Reply ChatResponse)
    → (receive c reply).0.message_index ≡ index_after c reply
unfolding receive
message_index-receive c (replied response) = refl
message_index-receive c (refused status) = refl
message_index-receive c broken = refl

module _ {S : Type 0} (service : Service S) where
  -- What follows a line with the command to quit is not read: the loop ends as it does without it.
  start_chat-quit :
      (before after : List Bytes) (c : Client) (s : S) (line : Bytes)
      → trim_space line ≡ quit_command
      → start_chat service c s (before ++ line ∷ after)
        ≡ start_chat service c s (before ++ line ∷ [])
  unfolding start_chat
  start_chat-quit [] after c s line h = ground (arith, h)
  start_chat-quit (other ∷ before) after c s line h =
      let (c', s', shown) = respond service c s (trim_space other) in
      rw (start_chat-quit before after c s line h, start_chat-quit before after c' s' line h) refl

  -- A /clear whose call the server answers gives the new session, no message index, and session
  -- counters of zero; the lifetime counters are those after the call.
  clear-replied :
      (c : Client) (s s' : S) (events : List Traffic) (id : Bytes)
      → service.start_session s ≡ (s', events, replied id)
      → let (c', t, shown) = clear service c s in
        (c'.session_id ≡ id)
        × (c'.message_index ≡ 0)
        × (c'.metrics.session ≡ zeros)
        × (c'.metrics.lifetime ≡ (apply_all c.metrics events).lifetime)
        × (t ≡ s')
  unfolding clear reset_session get_message_totals_and_reset reset_session_metrics
  clear-replied c s s' events id h = ground (arith, h)

  -- After a message the index is the count of the response, or as before if the call fails.
  message_index-send_message :
      (c : Client) (s : S) (message : Bytes)
      → (send_message service c s message).0.message_index
        ≡ index_after c (service.chat s (request_of c message)).2
  unfolding send_message receive
  message_index-send_message c s message =
      message_index-receive (saw c (service.chat s (request_of c message)).1)
        (service.chat s (request_of c message)).2
