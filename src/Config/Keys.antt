-- ===== src/Config/Keys.antt =====
-- The API keys of the configuration.
use microchat_ai.Prelude.{
  none, some, refl, inl, inr, Option, Bytes, List, ◌≡◌, ◌∷◌, bytes, [], arith, ◌⊎◌,
}
use microchat_ai.Config.{strip_suffix, add_key, add_keys, parse_api_keys, put_key, admin_suffix}
use microchat_ai.GoMap.{GoMap, get, put, get-put}
use microchat_ai.Net.{trim_space, split}
use microchat_ai.Interceptor.{admin}

-- Every key has one of the two roles.
abbrev IsRole : Option Bytes → Type 0
IsRole none = Unit
IsRole (some role) = (role ≡ admin) ⊎ (role ≡ bytes "user")

put-IsRole :
    (keys : GoMap Bytes) (j k role : Bytes)
    → IsRole (some role)
    → IsRole (get keys k)
    → IsRole (get (put keys j role) k)
put-IsRole keys j k role r h = ground (arith, get-put keys j k role)

put_key-IsRole :
    (keys : GoMap Bytes) (key k : Bytes) (o : Option Bytes)
    → IsRole (get keys k)
    → IsRole (get (put_key keys key o) k)
unfolding put_key
put_key-IsRole keys key k none h = put-IsRole keys key k (bytes "user") (inr refl) h
put_key-IsRole keys key k (some part) h = put-IsRole keys part k admin (inl refl) h

add_key-IsRole :
    (keys : GoMap Bytes) (key k : Bytes) → IsRole (get keys k) → IsRole (get (add_key keys key) k)
unfolding add_key
add_key-IsRole keys [] k h = h
add_key-IsRole keys (c ∷ s) k h =
    put_key-IsRole keys (c ∷ s) k (strip_suffix admin_suffix (c ∷ s)) h

add_keys-IsRole :
    (entries : List Bytes) (keys : GoMap Bytes) (k : Bytes)
    → IsRole (get keys k)
    → IsRole (get (add_keys keys entries) k)
unfolding add_keys
add_keys-IsRole [] keys k h = h
add_keys-IsRole (entry ∷ entries) keys k h =
    add_keys-IsRole entries (add_key keys (trim_space entry)) k
      (add_key-IsRole keys (trim_space entry) k h)

-- Whatever API_KEYS holds, every configured key has the role admin or the role user.
parse_api_keys-IsRole : (text k : Bytes) → IsRole (get (parse_api_keys text) k)
unfolding parse_api_keys get
parse_api_keys-IsRole [] k = tt
parse_api_keys-IsRole (c ∷ s) k = add_keys-IsRole (split b',' (c ∷ s)) [] k tt
