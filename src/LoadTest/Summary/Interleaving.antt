-- ===== src/LoadTest/Summary/Interleaving.antt =====
-- The users run at once; each call of recordSuccess or recordError holds the lock.
use microchat_ai.Prelude.{List, [], ◌∷◌, ◌++◌, ◌≡◌, refl, ap, ◌∙◌, sym}
use microchat_ai.LoadTest.{LoadTestResults, Event, record_all}
use microchat_ai.LoadTest.Summary.{
  Summary, summary, add_event, add_all, add_event-commute, summary-record_all,
}

-- An order of the events of all users that keeps the order of each: the next event is the next one
-- of some user, and a user without events is done.
pub data Interleaves : List (List Event) → List Event → Type 0 where
  done : Interleaves [] []
  leaves :
      {users : List (List Event)} {events : List Event}
      → Interleaves users events
      → Interleaves ([] ∷ users) events
  turn :
      (before : List (List Event)) (event : Event) (more : List Event) (after : List (List Event))
      {events : List Event}
      → Interleaves (before ++ (more ∷ after)) events
      → Interleaves (before ++ ((event ∷ more) ∷ after)) (event ∷ events)

-- One user after the other.
add_users : Summary → List (List Event) → Summary
add_users s [] = s
add_users s (user ∷ users) = add_users (add_all s user) users

add_all-add_event :
    (s : Summary) (event : Event) (events : List Event)
    → add_all (add_event s event) events ≡ add_event (add_all s events) event
add_all-add_event s event [] = refl
add_all-add_event s event (e ∷ events) =
    ap (λ t. add_all t events) (add_event-commute s event e)
    ∙ add_all-add_event (add_event s e) event events

-- The next event of a later user can come first.
add_users-turn :
    (s : Summary) (event : Event) (before : List (List Event)) (more : List Event)
    (after : List (List Event))
    → add_users (add_event s event) (before ++ (more ∷ after))
      ≡ add_users s (before ++ ((event ∷ more) ∷ after))
unfolding add_users
add_users-turn s event [] more after = refl
add_users-turn s event (user ∷ before) more after =
    ap (λ t. add_users t (before ++ (more ∷ after))) (add_all-add_event s event user)
    ∙ add_users-turn (add_all s user) event before more after

add_all-Interleaves :
    {users : List (List Event)} {events : List Event} (s : Summary)
    → Interleaves users events
    → add_all s events ≡ add_users s users
unfolding add_users
add_all-Interleaves s done = refl
add_all-Interleaves s (leaves r) = add_all-Interleaves s r
add_all-Interleaves s (turn before event more after r) =
    add_all-Interleaves (add_event s event) r ∙ add_users-turn s event before more after

-- In whatever order the users get the lock, the results have the same counters, the same latencies
-- but for their order, the same extremes, and the same number of errors of each type.
pub summary-Interleaves :
    {users : List (List Event)} {one other : List Event} (r : LoadTestResults)
    → Interleaves users one
    → Interleaves users other
    → summary (record_all r one) ≡ summary (record_all r other)
summary-Interleaves {one} {other} r p q =
    summary-record_all one r
    ∙ add_all-Interleaves (summary r) p
    ∙ sym (add_all-Interleaves (summary r) q)
    ∙ sym (summary-record_all other r)
