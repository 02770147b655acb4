-- ===== src/Metrics/OverLimit.antt =====
-- Which keys count as over the limit.
use microchat_ai.Prelude.{ℕ, suc, some, Bytes, ◌≡◌, ◌∷◌, [], arith, if◌then◌else◌, refl}
use microchat_ai.GoMap.{GoMap, get, IsMap}
use microchat_ai.Metrics.{keys_over_limit}
use microchat_ai.Metrics.Bounds.{get-tail}
use microchat_ai.Spending.{can_make_call, SpendingTracker, KeyUsage}

-- How many keys of the entries CanMakeCall refuses on the date of their entry.
abbrev pub refused_keys : SpendingTracker → GoMap KeyUsage → ℕ
refused_keys tracker [] = 0
refused_keys tracker ((key, usage) ∷ m) =
    let rest = refused_keys tracker m in
    if can_make_call tracker usage.date key then rest else suc rest

get_head :
    (m : GoMap KeyUsage) (key : Bytes) (usage : KeyUsage) → get ((key, usage) ∷ m) key ≡ some usage
unfolding get
get_head m key usage = ground arith

keys_over_limit-entries :
    (tracker : SpendingTracker) (m : GoMap KeyUsage)
    → IsMap m
    → ((key : Bytes) (usage : KeyUsage)
        → get m key ≡ some usage
        → get tracker.usage key ≡ some usage)
    → keys_over_limit tracker.limit m ≡ refused_keys tracker m
unfolding keys_over_limit can_make_call
keys_over_limit-entries tracker [] i held = refl
keys_over_limit-entries tracker ((key, usage) ∷ m) i held = ground (
  arith,
  keys_over_limit-entries tracker m i.1 (λ k u e. held k u (get-tail m key k usage u i.0 e)),
  held key usage (get_head m key usage),
)

-- On a map that holds no key twice: the keys that the metrics report as over the limit are as many
-- as those that CanMakeCall refuses on the date of their last call. The date of the update does not
-- matter, so a key counts also when it can make calls again.
pub keys_over_limit-refused :
    (tracker : SpendingTracker)
    → IsMap tracker.usage
    → keys_over_limit tracker.limit tracker.usage ≡ refused_keys tracker tracker.usage
keys_over_limit-refused tracker i =
    keys_over_limit-entries tracker tracker.usage i (λ key usage e. e)
