-- ===== src/Store/Evict/Gone.antt =====
-- Which ids the evictions leave in the order, in the map, and registered.
use microchat_ai.Prelude.{
  ℕ, zero, suc, ◌≡◌, refl, ap, ◌∙◌, false, none, List, [], ◌∷◌, arith, if◌then◌else◌, drop, Bytes,
  take, ◌||◌,
}
use microchat_ai.GoMap.{get, get-delete}
use microchat_ai.Store.{SessionStore, is_valid_session, evict_first, evict_oldest_session}
use microchat_ai.Store.Order.{mem}
use microchat_ai.Store.Evict.{evict_many}

-- The order loses its first `n` ids.
session_order-evict_first :
    (s : SessionStore) (ids : List Bytes)
    → s.session_order ≡ ids
    → (evict_first s ids).session_order ≡ drop 1 ids
unfolding evict_first
session_order-evict_first s [] e = e
session_order-evict_first s (j ∷ ids) e = refl

drop-drop_one : {A : Type 0} (n : ℕ) (xs : List A) → drop n (drop 1 xs) ≡ drop (suc n) xs
drop-drop_one zero [] = refl
drop-drop_one (suc n) [] = refl
drop-drop_one n (x ∷ xs) = refl

pub session_order-evict_many :
    (n : ℕ) (s : SessionStore) → (evict_many n s).session_order ≡ drop n s.session_order
unfolding evict_many evict_oldest_session
session_order-evict_many zero s = refl
session_order-evict_many (suc n) s =
    session_order-evict_many n (evict_oldest_session s)
    ∙ ap (drop n) (session_order-evict_first s s.session_order refl)
    ∙ drop-drop_one n s.session_order

-- What is evicted: a session whose id is among the first `n` of the order, with its registration.
get-evict_first :
    (s : SessionStore) (ids : List Bytes) (k : Bytes)
    → get (evict_first s ids).sessions k ≡ (if mem (take 1 ids) k then none else get s.sessions k)
unfolding evict_first mem
get-evict_first s [] k = refl
get-evict_first s (j ∷ ids) k = ground (arith, get-delete s.sessions j k)

valid-evict_first :
    (s : SessionStore) (ids : List Bytes) (k : Bytes)
    → is_valid_session (evict_first s ids) k
      ≡ (if mem (take 1 ids) k then false else is_valid_session s k)
unfolding evict_first mem is_valid_session
valid-evict_first s [] k = refl
valid-evict_first s (j ∷ ids) k = ground (arith, get-delete s.valid_sessions j k)

mem-take-suc :
    (n : ℕ) (ids : List Bytes) (k : Bytes)
    → mem (take (suc n) ids) k ≡ mem (take 1 ids) k || mem (take n (drop 1 ids)) k
unfolding mem
mem-take-suc zero [] k = refl
mem-take-suc (suc n) [] k = refl
mem-take-suc n (j ∷ ids) k = ground arith

pub get-evict_many :
    (n : ℕ) (s : SessionStore) (k : Bytes)
    → get (evict_many n s).sessions k
      ≡ (if mem (take n s.session_order) k then none else get s.sessions k)
unfolding evict_many mem evict_oldest_session
get-evict_many zero s k = refl
get-evict_many (suc n) s k = ground (
  arith,
  get-evict_many n (evict_oldest_session s) k,
  get-evict_first s s.session_order k,
  session_order-evict_first s s.session_order refl,
  mem-take-suc n s.session_order k,
)

pub valid-evict_many :
    (n : ℕ) (s : SessionStore) (k : Bytes)
    → is_valid_session (evict_many n s) k
      ≡ (if mem (take n s.session_order) k then false else is_valid_session s k)
unfolding evict_many mem evict_oldest_session
valid-evict_many zero s k = refl
valid-evict_many (suc n) s k = ground (
  arith,
  valid-evict_many n (evict_oldest_session s) k,
  valid-evict_first s s.session_order k,
  session_order-evict_first s s.session_order refl,
  mem-take-suc n s.session_order k,
)
