-- ===== src/Metrics/Usage.antt =====
-- What the gauges show after an update.
use microchat_ai.Prelude.{true, ℕ, none, some, Option, Bytes, [], ◌∷◌, ◌≡◌, refl, arith, ◌∙◌, ap}
use microchat_ai.GoMap.{GoMap, has, get, put, IsMap, get-put, get_of_not-has, put-IsMap}
use microchat_ai.Spending.{KeyUsage, SpendingTracker}
use microchat_ai.Metrics.{hashed_usage, update_business_metrics}
use microchat_ai.Metrics.Registry.{
  set_all, publish, update_total_session_memory, update_api_key_metrics, update_active_sessions,
  Registry,
}
use microchat_ai.Store.{SessionStore}

-- The value that stands, or else the one before.
abbrev or_before : Option ℕ → Option ℕ → Option ℕ
or_before before none = before
or_before before (some n) = some n

abbrev calls_of : Option KeyUsage → Option ℕ
calls_of none = none
calls_of (some usage) = some usage.calls

hashed_usage-IsMap :
    (hash : Bytes → Bytes) (calls : GoMap ℕ) (m : GoMap KeyUsage)
    → IsMap calls
    → IsMap (hashed_usage hash calls m)
unfolding hashed_usage
hashed_usage-IsMap hash calls [] h = h
hashed_usage-IsMap hash calls ((key, usage) ∷ m) h =
    hashed_usage-IsMap hash (put calls (hash key) usage.calls) m
      (put-IsMap calls (hash key) usage.calls h)

get-set_all :
    (series m : GoMap ℕ) (label : Bytes)
    → IsMap m
    → get (set_all series m) label ≡ or_before (get series label) (get m label)
unfolding set_all get
get-set_all series [] label h = refl
get-set_all series ((j, n) ∷ m) label h = ground (
  arith,
  get-set_all (put series j n) m label h.1,
  get-put series j label n,
  get_of_not-has m label,
)

has_head : (m : GoMap KeyUsage) (j : Bytes) (usage : KeyUsage) → has ((j, usage) ∷ m) j ≡ true
unfolding has
has_head m j usage = ground arith

has_tail :
    (m : GoMap KeyUsage) (i j : Bytes) (usage : KeyUsage)
    → has m i ≡ true
    → has ((j, usage) ∷ m) i ≡ true
unfolding has
has_tail m i j usage h = ground arith

module _ (hash : Bytes → Bytes) (key : Bytes) where
  -- No other key of the map has the hash of the key.
  abbrev pub IsApart : GoMap KeyUsage → Type 0
  IsApart m = (j : Bytes) → has m j ≡ true → hash j ≡ hash key → j ≡ key

  get-hashed_usage :
      (calls : GoMap ℕ) (m : GoMap KeyUsage)
      → IsMap m
      → IsApart m
      → get (hashed_usage hash calls m) (hash key)
        ≡ or_before (get calls (hash key)) (calls_of (get m key))
  unfolding hashed_usage get has
  get-hashed_usage calls [] h apart = refl
  get-hashed_usage calls ((j, usage) ∷ m) h apart = ground (
    arith,
    get-hashed_usage (put calls (hash j) usage.calls) m h.1
        (λ i e. apart i (has_tail m i j usage e)),
    get-put calls (hash j) (hash key) usage.calls,
    apart j (has_head m j usage),
    get_of_not-has m key,
  )

  -- If no other key of the tracker has the hash of this one: after an update from a tracker whose
  -- map holds no key twice, the gauge of a key that the tracker holds is the number of calls that
  -- it holds for it, whatever the gauge was before and whatever other keys there are.
  pub api_calls_today-publish :
      {F : Type 0} (r : Registry F) (api_keys : GoMap Bytes) (tracker : SpendingTracker)
      (store : SessionStore) (usage : KeyUsage)
      → IsMap tracker.usage
      → IsApart tracker.usage
      → get tracker.usage key ≡ some usage
      → get
          (publish r (update_business_metrics hash api_keys tracker store)).api_calls_today
          (hash key)
        ≡ some usage.calls
  unfolding publish update_total_session_memory update_api_key_metrics update_active_sessions
      update_business_metrics
  api_calls_today-publish r api_keys tracker store usage i apart found =
      get-set_all r.api_calls_today (hashed_usage hash [] tracker.usage) (hash key)
        (hashed_usage-IsMap hash [] tracker.usage tt)
      ∙ ap (or_before (get r.api_calls_today (hash key)))
          (get-hashed_usage [] tracker.usage i apart)
      ∙ rw found refl
