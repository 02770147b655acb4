-- ===== src/GoMap.antt =====
-- Go maps with string keys, as association lists: each key once. A read of a missing key is
-- `none`; the order of iteration is unspecified in Go, and is the order of the list here.
use microchat_ai.Prelude.{
  suc, ◌≡◌, refl, Bool, true, false, Option, none, some, List, [], ◌∷◌, arith, ite, length, if_pos,
  if_neg, Bytes, Bytes_discrete,
}

abbrev pub GoMap {ℓ} : Type ℓ → Type ℓ
GoMap V = List (Bytes × V)

module _ {ℓ} {V : Type ℓ} where
  -- m[k]
  unfoldable pub get : GoMap V → Bytes → Option V
  get [] k = none
  get ((j, v) ∷ m) k = ite (Bytes_discrete j k) (some v) (get m k)

  abbrev pub is_some : Option V → Bool
  is_some none = false
  is_some (some v) = true

  -- m[k] = v
  unfoldable pub put : GoMap V → Bytes → V → GoMap V
  put [] k v = (k, v) ∷ []
  put ((j, w) ∷ m) k v = ite (Bytes_discrete j k) ((k, v) ∷ m) ((j, w) ∷ put m k v)

  -- delete(m, k)
  unfoldable pub delete : GoMap V → Bytes → GoMap V
  delete [] k = []
  delete ((j, w) ∷ m) k = ite (Bytes_discrete j k) (delete m k) ((j, w) ∷ delete m k)

  -- _, ok := m[k]
  unfoldable pub has : GoMap V → Bytes → Bool
  has [] k = false
  has ((j, v) ∷ m) k = ite (Bytes_discrete j k) true (has m k)

  -- No key stands twice.
  abbrev pub IsMap : GoMap V → Type 0
  IsMap [] = Unit
  IsMap ((j, v) ∷ m) = (has m j ≡ false) × IsMap m

  pub get-put :
      (m : GoMap V) (k j : Bytes) (v : V)
      → get (put m k v) j ≡ ite (Bytes_discrete k j) (some v) (get m j)
  unfolding get put
  get-put [] k j v = refl
  get-put ((i, w) ∷ m) k j v = ground (arith, get-put m k j v)

  pub get-delete :
      (m : GoMap V) (k j : Bytes) → get (delete m k) j ≡ ite (Bytes_discrete k j) none (get m j)
  unfolding get delete
  get-delete [] k j = ground arith
  get-delete ((i, w) ∷ m) k j = ground (arith, get-delete m k j)

  pub has-put :
      (m : GoMap V) (k j : Bytes) (v : V)
      → has (put m k v) j ≡ ite (Bytes_discrete k j) true (has m j)
  unfolding has put
  has-put [] k j v = refl
  has-put ((i, w) ∷ m) k j v = ground (arith, has-put m k j v)

  pub has-delete :
      (m : GoMap V) (k j : Bytes) → has (delete m k) j ≡ ite (Bytes_discrete k j) false (has m j)
  unfolding has delete
  has-delete [] k j = ground arith
  has-delete ((i, w) ∷ m) k j = ground (arith, has-delete m k j)

  -- A key is present exactly when a read finds a value.
  pub has-get : (m : GoMap V) (k : Bytes) (v : V) → get m k ≡ some v → has m k ≡ true
  unfolding has get
  has-get [] k v e = cc
  has-get ((i, w) ∷ m) k v e = ground (arith, has-get m k v)

  pub has-is_some : (m : GoMap V) (k : Bytes) → has m k ≡ is_some (get m k)
  unfolding has get
  has-is_some [] k = refl
  has-is_some ((i, w) ∷ m) k = ground (arith, has-is_some m k)

  pub get_of_has : (m : GoMap V) (k : Bytes) → has m k ≡ true → (v : V) × (get m k ≡ some v)
  unfolding has get
  get_of_has [] k e = cc
  get_of_has ((i, w) ∷ m) k e = elim (Bytes_discrete i k) [
    | yes p ↦ (w, rw (if_pos _ p))
    | no p ↦ let (v, h) = get_of_has m k (rw (if_neg _ p) at e) in (v, rw (if_neg _ p) h)
  ]

  pub has_of_none : (m : GoMap V) (k : Bytes) → get m k ≡ none → has m k ≡ false
  unfolding has get
  has_of_none [] k e = refl
  has_of_none ((i, w) ∷ m) k e = ground (arith, has_of_none m k)

  pub get_of_not-has : (m : GoMap V) (k : Bytes) → has m k ≡ false → get m k ≡ none
  unfolding has get
  get_of_not-has [] k e = refl
  get_of_not-has ((i, w) ∷ m) k e = ground (arith, get_of_not-has m k)

  pub put-IsMap : (m : GoMap V) (k : Bytes) (v : V) → IsMap m → IsMap (put m k v)
  unfolding put has
  put-IsMap [] k v h = ground arith
  put-IsMap ((i, w) ∷ m) k v h = ground (arith, put-IsMap m k v, has-put m k i v)

  pub delete-IsMap : (m : GoMap V) (k : Bytes) → IsMap m → IsMap (delete m k)
  unfolding delete
  delete-IsMap [] k h = tt
  delete-IsMap ((i, w) ∷ m) k h = ground (arith, delete-IsMap m k, has-delete m k i)

  delete_missing : (m : GoMap V) (k : Bytes) → has m k ≡ false → delete m k ≡ m
  unfolding delete has
  delete_missing [] k h = refl
  delete_missing ((i, w) ∷ m) k h = ground (arith, delete_missing m k)

  pub length-delete :
      (m : GoMap V) (k : Bytes) → IsMap m → has m k ≡ true → suc (length (delete m k)) ≡ length m
  unfolding delete has
  length-delete [] k h e = cc
  length-delete ((i, w) ∷ m) k h e = ground (arith, length-delete m k, delete_missing m k)

  pub length-put_new :
      (m : GoMap V) (k : Bytes) (v : V) → has m k ≡ false → length (put m k v) ≡ suc (length m)
  unfolding put has
  length-put_new [] k v e = refl
  length-put_new ((i, w) ∷ m) k v e = ground (arith, length-put_new m k v)

  pub length-put_old :
      (m : GoMap V) (k : Bytes) (v : V) → has m k ≡ true → length (put m k v) ≡ length m
  unfolding put has
  length-put_old [] k v e = cc
  length-put_old ((i, w) ∷ m) k v e = ground (arith, length-put_old m k v)
