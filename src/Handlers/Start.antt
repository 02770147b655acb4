-- ===== src/Handlers/Start.antt =====
-- StartSession of cmd/server/grpc_handlers.go.
use microchat_ai.Prelude.{◌≡◌, refl, true, Bytes, ◌≢◌, arith}
use microchat_ai.GoMap.{get-put}
use microchat_ai.Handlers.{Application, start_session}
use microchat_ai.Store.{is_valid_session, get_messages, register_session}
use microchat_ai.Store.History.{IsSound, register_session-IsSound}

-- What StartSession leaves: a sound store in which the id that it gives is valid, and in which all
-- other ids and all histories are as they were.
pub record Started (before : Application) (id : Bytes) (r : Application × Bytes) : Type 0 where
  pub sound : IsSound r.0.session_store
  pub gives : r.1 ≡ id
  pub valid : is_valid_session r.0.session_store id ≡ true
  pub others :
      (k : Bytes)
      → k ≢ id
      → is_valid_session r.0.session_store k ≡ is_valid_session before.session_store k
  pub histories :
      (k : Bytes) → get_messages r.0.session_store k ≡ get_messages before.session_store k

-- On a sound store, StartSession gives its new id, which is then valid; the store stays sound, and
-- all other ids and all histories are as they were.
pub start_session-Started :
    (app : Application) (id : Bytes)
    → IsSound app.session_store
    → Started app id (start_session app id)
unfolding start_session register_session is_valid_session get_messages
start_session-Started app id g = record {
  sound = unfold register_session in register_session-IsSound app.session_store id g;
  gives = refl;
  valid = ground (arith, get-put app.session_store.valid_sessions id id true);
  others = λ k other. ground (arith, get-put app.session_store.valid_sessions id k true);
  histories = λ k. refl;
}
