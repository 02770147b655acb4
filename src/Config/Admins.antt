-- ===== src/Config/Admins.antt =====
-- Which keys of API_KEYS are admin keys.
use microchat_ai.Prelude.{
  if_pos, if_neg, ℕ, none, some, refl, inl, inr, Option, Bytes, List, ◌≡◌, ◌∷◌, bytes, [], ◌++◌,
  arith, ◌⊎◌, ap, ◌∙◌, Bytes_discrete,
}
use microchat_ai.Config.{
  behind, strip_suffix, add_key, add_keys, parse_api_keys, put_key, admin_suffix,
}
use microchat_ai.GoMap.{GoMap, get, get-put}
use microchat_ai.Net.{trim_space, split}
use microchat_ai.Interceptor.{admin}

-- Some entry of the list names the key as that of an admin.
abbrev pub Names : Bytes → List Bytes → Type 0
Names key [] = ⊥
Names key (entry ∷ more) = (trim_space entry ≡ key ++ admin_suffix) ⊎ Names key more

some_inj : {a b : Bytes} → some a ≡ some b → a ≡ b
some_inj e = cc

behind_lem :
    (c : ℕ) (o : Option Bytes) (part : Bytes)
    → behind c o ≡ some part
    → (rest : Bytes) × (o ≡ some rest) × (c ∷ rest ≡ part)
behind_lem c none part h = cc
behind_lem c (some rest) part h = (rest, refl, some_inj h)

-- What TrimSuffix takes off is the suffix.
strip_suffix_lem : (suffix s part : Bytes) → strip_suffix suffix s ≡ some part → s ≡ part ++ suffix
unfolding strip_suffix
strip_suffix_lem suffix [] part h = elim (Bytes_discrete [] suffix) [
  | yes p ↦ p ∙ ap (λ t. t ++ suffix) (some_inj (rw (if_pos _ p) at h))
  | no p ↦ ground arith
]
strip_suffix_lem suffix (c ∷ s) part h = elim (Bytes_discrete (c ∷ s) suffix) [
  | yes p ↦ p ∙ ap (λ t. t ++ suffix) (some_inj (rw (if_pos _ p) at h))
  | no p ↦
      let (rest, found, e) = behind_lem c (strip_suffix suffix s) part (rw (if_neg _ p) at h) in
      ap (λ t. c ∷ t) (strip_suffix_lem suffix s rest found) ∙ ap (λ t. t ++ suffix) e
]

put_key-admin :
    (keys : GoMap Bytes) (key k : Bytes) (o : Option Bytes)
    → get (put_key keys key o) k ≡ some admin
    → (get keys k ≡ some admin) ⊎ (o ≡ some k)
unfolding put_key
put_key-admin keys key k none h = elim (Bytes_discrete key k) [
  | yes p ↦ ground (arith, get-put keys key k (bytes "user"))
  | no p ↦ ground (arith, get-put keys key k (bytes "user"))
]
put_key-admin keys key k (some part) h = elim (Bytes_discrete part k) [
  | yes p ↦ inr (ap (λ t. some t) p)
  | no p ↦ inl (ground (arith, get-put keys part k admin))
]

add_key-admin :
    (keys : GoMap Bytes) (key k : Bytes)
    → get (add_key keys key) k ≡ some admin
    → (get keys k ≡ some admin) ⊎ (key ≡ k ++ admin_suffix)
unfolding add_key
add_key-admin keys [] k h = inl h
add_key-admin keys (c ∷ s) k h =
    elim (put_key-admin keys (c ∷ s) k (strip_suffix admin_suffix (c ∷ s)) h) [
      | inl before ↦ inl before
      | inr found ↦ inr (strip_suffix_lem admin_suffix (c ∷ s) k found)
    ]

add_keys-admin :
    (entries : List Bytes) (keys : GoMap Bytes) (k : Bytes)
    → get (add_keys keys entries) k ≡ some admin
    → (get keys k ≡ some admin) ⊎ Names k entries
unfolding add_keys
add_keys-admin [] keys k h = inl h
add_keys-admin (entry ∷ more) keys k h =
    elim (add_keys-admin more (add_key keys (trim_space entry)) k h) [
      | inl here ↦ elim (add_key-admin keys (trim_space entry) k here) [
        | inl before ↦ inl before
        | inr named ↦ inr (inl named)
      ]
      | inr later ↦ inr (inr later)
    ]

-- Only a key that an entry of API_KEYS names with the suffix ":admin" has the role of an admin.
pub parse_api_keys-admin :
    (text k : Bytes) → get (parse_api_keys text) k ≡ some admin → Names k (split b',' text)
unfolding parse_api_keys get
parse_api_keys-admin [] k h = cc
parse_api_keys-admin (c ∷ s) k h = elim (add_keys-admin (split b',' (c ∷ s)) [] k h) [
  | inl none_yet ↦ cc
  | inr named ↦ named
]
