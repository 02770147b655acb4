-- ===== src/LoadTest/Settings/Keys.antt =====
-- The key that the load test uses is one that a server with the same API_KEYS accepts.
use microchat_ai.Prelude.{
  none, some, Option, Bytes, List, [], ◌∷◌, ◌≡◌, refl, true, false, arith, bytes, has_prefix, ℕ,
  Bytes_discrete, Bool-cases, subst, if_neg, if_pos, inl, sym, inr,
}
use microchat_ai.GoMap.{GoMap, has, has-put}
use microchat_ai.Net.{split, trim_space}
use microchat_ai.Config.{parse_api_keys, add_keys, add_key, put_key, strip_suffix, admin_suffix}
use microchat_ai.LoadTest.Settings.{get_api_key, first_key, contains, is_empty, is_taken}

put_key-has :
    (keys : GoMap Bytes) (key k : Bytes) (o : Option Bytes)
    → has keys k ≡ true
    → has (put_key keys key o) k ≡ true
unfolding put_key
put_key-has keys key k none h = ground (arith, has-put keys key k (bytes "user"))
put_key-has keys key k (some part) h = ground (arith, has-put keys part k (bytes "admin"))

add_key-has :
    (keys : GoMap Bytes) (key k : Bytes) → has keys k ≡ true → has (add_key keys key) k ≡ true
unfolding add_key
add_key-has keys [] k h = h
add_key-has keys (c ∷ s) k h = put_key-has keys (c ∷ s) k (strip_suffix admin_suffix (c ∷ s)) h

add_keys-has :
    (entries : List Bytes) (keys : GoMap Bytes) (k : Bytes)
    → has keys k ≡ true
    → has (add_keys keys entries) k ≡ true
unfolding add_keys
add_keys-has [] keys k h = h
add_keys-has (entry ∷ more) keys k h =
    add_keys-has more (add_key keys (trim_space entry)) k (add_key-has keys (trim_space entry) k h)

contains_self : (s : Bytes) → s ≡ admin_suffix → contains s admin_suffix ≡ true
unfolding contains has_prefix
contains_self s e = subst (λ t. contains t admin_suffix ≡ true) (sym e) refl

contains_tail : (c : ℕ) (s part : Bytes) → contains (c ∷ s) part ≡ false → contains s part ≡ false
unfolding contains
contains_tail c s part h = ground arith

-- A text without ":admin" in it does not end with it.
contains-strip_suffix :
    (s : Bytes) → contains s admin_suffix ≡ false → strip_suffix admin_suffix s ≡ none
unfolding strip_suffix
contains-strip_suffix [] h = elim (Bytes_discrete [] admin_suffix) [
  | yes p ↦ ground (arith, contains_self [] p)
  | no p ↦ rw (if_neg _ p) refl
]
contains-strip_suffix (c ∷ s) h = elim (Bytes_discrete (c ∷ s) admin_suffix) [
  | yes p ↦ ground (arith, contains_self (c ∷ s) p)
  | no p ↦ rw (if_neg _ p, contains-strip_suffix s (contains_tail c s admin_suffix h)) refl
]

is_taken-cases :
    (entry : Bytes)
    → is_taken entry ≡ true
    → (contains entry admin_suffix ≡ false) × (is_empty entry ≡ false)
unfolding is_taken
is_taken-cases entry h = ground arith

-- An entry that the load test takes is a key of the server.
has-add_key :
    (keys : GoMap Bytes) (entry : Bytes)
    → contains entry admin_suffix ≡ false
    → is_empty entry ≡ false
    → has (add_key keys entry) entry ≡ true
unfolding add_key put_key
has-add_key keys [] h n = ground arith
has-add_key keys (c ∷ s) h n =
    rw (contains-strip_suffix (c ∷ s) h, has-put keys (c ∷ s) (c ∷ s) (bytes "user"))
      (if_pos (Bytes_discrete (c ∷ s) (c ∷ s)) refl true (has keys (c ∷ s)))

some_inj : {a b : Bytes} → some a ≡ some b → a ≡ b
some_inj e = cc

has-first_key :
    (entries : List Bytes) (keys : GoMap Bytes) (key : Bytes)
    → first_key entries ≡ some key
    → has (add_keys keys entries) key ≡ true
unfolding first_key add_keys
has-first_key [] keys key h = cc
has-first_key (entry ∷ more) keys key h = elim (Bool-cases (is_taken (trim_space entry))) [
  | inl takes ↦
      let (free, full) = is_taken-cases (trim_space entry) takes in
      add_keys-has more (add_key keys (trim_space entry)) key (
        subst (λ k. has (add_key keys (trim_space entry)) k ≡ true) (some_inj (rw takes at h))
          (has-add_key keys (trim_space entry) free full))
  | inr skips ↦ has-first_key more (add_key keys (trim_space entry)) key (rw skips at h)
]

-- If the load test finds a key in API_KEYS, a server with the same API_KEYS has it configured, so
-- it does not refuse the key as unknown.
pub get_api_key-has :
    (text key : Bytes) → get_api_key text ≡ some key → has (parse_api_keys text) key ≡ true
unfolding get_api_key parse_api_keys
get_api_key-has [] key h = cc
get_api_key-has (c ∷ s) key h = has-first_key (split b',' (c ∷ s)) [] key h
