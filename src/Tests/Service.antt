-- ===== src/Tests/Service.antt =====
-- Runs of the whole server, and of the client at it.
use microchat_ai.Prelude.{
  panics, some, ◌++◌, ◌>>=◌, ap, Bytes_discrete, has_prefix, trim_prefix, ℕ_discrete, none, refl,
  false, Bytes, List, [], bytes, ◌≡◌, pos, ◌∷◌, returns,
}
use microchat_ai.Tests.Access.{bucket, keys, ctx}
use microchat_ai.Tests.Spending.{day, key, half_spent}
use microchat_ai.Tests.Config.{environment, cfg, loads}
use microchat_ai.Tests.Store.{store_ab-IsSound, b_id}
use microchat_ai.Tests.Handlers.{server, request, app, after, answered_ok}
use microchat_ai.GoMap.{get, has, put}
use microchat_ai.Grpc.{ok}
use microchat_ai.RateLimit
use microchat_ai.RateLimit.{IpLimiter, new_ip_limiter}
use microchat_ai.Spending.{record_call, can_make_call}
use microchat_ai.Handlers.Chat.Alone.{alone}
use RateLimit.{allow}
use microchat_ai.Interceptor.{chain, auth_interceptor, rate_limit_interceptor, limit_key}
use microchat_ai.Handlers.Chat.{chat}
use microchat_ai.Handlers.Validate.{
  validate_session_id, validate_message, validate_response, max_response_size,
}
use microchat_ai.Handlers.Sanitize.{sanitize_for_terminal}
use microchat_ai.Session.{formatted_string, get_session_size, add_sizes, role_string}
use microchat_ai.Store.{
  get_formatted_messages, append_message, get_messages, is_valid_session, ensure_session,
  append_to_session, update_session_order, remove_first, get_messages_as_llm_format,
}
use microchat_ai.Store.History.{run}
use microchat_ai.Handlers.{start_session}
use microchat_ai.Handlers.Start.{Started, start_session-Started}
use microchat_ai.Service.{
  serve, chatted, recalled, Running, Times, Response, probes, starts, recalls, chats, run_server,
  Step, requests, ticks, serve_chat,
}
use microchat_ai.Service.Answers.{IsUp, AllFit, run_server-AllFit}
use microchat_ai.Service.RoundTrip.{serve-recalls_of_chats}
use microchat_ai.Handlers.History.{HistoryResponse, get_history}
use microchat_ai.Grpc.{Context}
use microchat_ai.Service.Reply.{Replied, serve_chat-Replied}
use microchat_ai.Client.Chat.{Client, send_message, start_chat, assistant_says, receive, saw}
use microchat_ai.Client.Deployed.{ended, Live, Setting, deployed, add_auth_context}
use microchat_ai.Client.Deployed.Shown.{Seen, send_message-Seen}
use microchat_ai.Client.Deployed.Answered.{Ran, start_chat-Ran, answered_lines}
use microchat_ai.Client.Metrics.{zeros}
use microchat_ai.Net.{trim_space}
use microchat_ai.Client.Metrics.Sums.{apply_all}

start_session-Started_example : Started app (bytes "new") (start_session app (bytes "new"))
start_session-Started_example = start_session-Started app (bytes "new") store_ab-IsSound

abbrev times : Times
times = record { checked = day; recorded = day; now = 2; at = 2; stored = 3; answered = 4 }

abbrev steps : List Step
steps =
    requests (probes times ctx)
    ∷ requests (starts times ctx (bytes "id"))
    ∷ ticks 9
    ∷ requests (recalls times ctx (bytes "id"))
    ∷ requests (chats times alone ctx request)
    ∷ []

run_server-AllFit_example :
    (a : Running bucket × List Response) × (run_server bucket server cfg steps ≡ returns a)
    × IsUp bucket server cfg.api_keys a.0
    × AllFit bucket server cfg.api_keys steps a.1
run_server-AllFit_example = run_server-AllFit bucket server environment cfg steps loads refl

-- An interval of zero.
no_interval :
    run_server bucket server (record cfg { session_cleanup_interval = pos 0 }) steps ≡ panics
unfolding run_server
no_interval = refl

abbrev il : IpLimiter bucket
il = new_ip_limiter bucket 1 (pos 2)

abbrev running : Running bucket
running = record { app = app; spending = half_spent; limiter = il }

abbrev then : Running bucket
then = record {
  app = after;
  spending = record_call half_spent day key;
  limiter = (RateLimit.allow bucket il 2 2 (bytes "api_key:k")).0;
}

replies :
    serve_chat bucket server keys running times alone ctx request ≡ returns (then, ok answered_ok)
unfolding serve_chat chain auth_interceptor Bytes_discrete get has_prefix trim_prefix can_make_call
    rate_limit_interceptor allow new_ip_limiter chat validate_session_id validate_message
    is_valid_session run append_message get_messages ensure_session has put ℕ_discrete
    append_to_session get_session_size add_sizes role_string update_session_order remove_first
    validate_response max_response_size sanitize_for_terminal get_messages_as_llm_format limit_key
    record_call
replies = refl

serve_chat-Replied_example : Replied bucket server keys running then times ctx request answered_ok
serve_chat-Replied_example =
    serve_chat-Replied bucket server keys running then times ctx request answered_ok
      store_ab-IsSound replies

-- A request with another key.
abbrev other_ctx : Context
other_ctx = record ctx { metadata = some ((bytes "authorization", bytes "Bearer l" ∷ []) ∷ []) }

abbrev at_last : Running bucket
at_last = record then {
  spending = record_call then.spending day (bytes "l");
  limiter = (RateLimit.allow bucket then.limiter 2 2 (bytes "api_key:l")).0;
}

abbrev history : HistoryResponse
history = record {
  session_id = b_id;
  messages =
      bytes "user [00:00:00 UTC]: y"
      ∷ bytes "user [00:00:00 UTC]: hi"
      ∷ bytes "assistant [00:00:00 UTC]: ok"
      ∷ [];
}

chats_replies :
    serve bucket server keys running (chats times alone ctx request)
    ≡ returns (then, chatted (ok answered_ok))
unfolding serve
chats_replies = ap (λ o. do (r, result) ← o; returns (r, chatted result)) replies

recalls_replies :
    serve bucket server keys then (recalls times other_ctx b_id)
    ≡ returns (at_last, recalled (ok history))
unfolding serve chain auth_interceptor Bytes_discrete get has_prefix trim_prefix can_make_call
    rate_limit_interceptor allow new_ip_limiter validate_session_id has put ℕ_discrete limit_key
    record_call get_history get_formatted_messages formatted_string get_messages
recalls_replies = refl

serve-recalls_of_chats_example :
    history.messages
    ≡ get_formatted_messages app.session_store b_id
      ++ bytes "user [00:00:00 UTC]: hi" ∷ bytes "assistant [00:00:00 UTC]: ok" ∷ []
unfolding formatted_string
serve-recalls_of_chats_example =
    serve-recalls_of_chats bucket server keys running then at_last times times ctx other_ctx request
      answered_ok history store_ab-IsSound chats_replies recalls_replies

abbrev client : Client
client = record {
  session_id = b_id;
  model = pos 0;
  message_index = 1;
  metrics = record { session = zeros; lifetime = zeros; msg = zeros };
  displays = false;
}

abbrev setting : Setting
setting = record { times = λ n. times; ids = λ n. bytes "new"; traffic = λ n. []; peer = none }

abbrev live : Live bucket
live = record { running = running; count = 0 }

shows : send_message (deployed bucket server keys setting key) client live (bytes "hi") ≡ (
  record client { message_index = 3 },
  record { running = then; count = 1 },
  assistant_says (bytes "ok"),
)
unfolding send_message receive apply_all add_auth_context
shows =
    ap
      (λ o.
        let e = ended bucket server keys setting key live o in
        let (c, shown) = receive (saw client e.1) e.2 in (c, e.0, shown))
      replies

send_message-Seen_example :
    Seen bucket server keys setting key client
      (record client { message_index = 3 })
      live
      (record { running = then; count = 1 })
      (bytes "hi")
      (bytes "ok")
send_message-Seen_example =
    send_message-Seen bucket server keys setting key client (record client { message_index = 3 })
      live (record { running = then; count = 1 }) (bytes "hi") (bytes "ok") store_ab-IsSound shows

abbrev lines : List Bytes
lines = bytes "hi" ∷ bytes " " ∷ bytes "/clear" ∷ bytes "/quit" ∷ bytes "more" ∷ []

two_answers : answered_lines lines ≡ 2
unfolding trim_space Bytes_discrete
two_answers = refl

start_chat-Ran_example :
    Ran bucket server keys setting key
      (answered_lines lines)
      (start_chat (deployed bucket server keys setting key) client live lines)
start_chat-Ran_example =
    start_chat-Ran bucket server keys setting key lines client live store_ab-IsSound
