-- ===== src/Store/Order.antt =====
-- The list of session ids, least recently used first.
use microchat_ai.Prelude.{
  suc, ◌≡◌, refl, Bool, true, false, List, [], ◌∷◌, ◌++◌, arith, ite, length, Bytes, Bytes_discrete,
}
use microchat_ai.Store.{remove_first}

unfoldable pub mem : List Bytes → Bytes → Bool
mem [] k = false
mem (j ∷ ids) k = ite (Bytes_discrete j k) true (mem ids k)

-- No id stands twice.
abbrev pub IsDistinct : List Bytes → Type 0
IsDistinct [] = Unit
IsDistinct (j ∷ ids) = (mem ids j ≡ false) × IsDistinct ids

pub mem-append_one :
    (ids : List Bytes) (k j : Bytes)
    → mem (ids ++ k ∷ []) j ≡ ite (Bytes_discrete k j) true (mem ids j)
unfolding mem
mem-append_one [] k j = refl
mem-append_one (i ∷ ids) k j = ground (arith, mem-append_one ids k j)

pub remove_first_missing :
    (k : Bytes) (ids : List Bytes) → mem ids k ≡ false → remove_first k ids ≡ ids
unfolding mem remove_first
remove_first_missing k [] h = refl
remove_first_missing k (i ∷ ids) h = ground (arith, remove_first_missing k ids)

pub mem-remove_first :
    (k j : Bytes) (ids : List Bytes)
    → IsDistinct ids
    → mem (remove_first k ids) j ≡ ite (Bytes_discrete k j) false (mem ids j)
unfolding mem remove_first
mem-remove_first k j [] h = ground arith
mem-remove_first k j (i ∷ ids) h = ground (arith, mem-remove_first k j ids)

pub remove_first-IsDistinct :
    (k : Bytes) (ids : List Bytes) → IsDistinct ids → IsDistinct (remove_first k ids)
unfolding remove_first
remove_first-IsDistinct k [] h = tt
remove_first-IsDistinct k (i ∷ ids) h =
    ground (arith, remove_first-IsDistinct k ids, mem-remove_first k i ids)

pub append_one-IsDistinct :
    (ids : List Bytes) (k : Bytes) → IsDistinct ids → mem ids k ≡ false → IsDistinct (ids ++ k ∷ [])
unfolding mem
append_one-IsDistinct [] k h n = ground arith
append_one-IsDistinct (i ∷ ids) k h n =
    ground (arith, append_one-IsDistinct ids k, mem-append_one ids k i)

pub length-remove_first :
    (k : Bytes) (ids : List Bytes)
    → mem ids k ≡ true
    → suc (length (remove_first k ids)) ≡ length ids
unfolding mem remove_first
length-remove_first k [] h = cc
length-remove_first k (i ∷ ids) h = ground (arith, length-remove_first k ids)

-- The id that was just added at the end goes, and comes back.
pub remove_first-append_one :
    (k : Bytes) (ids : List Bytes) → mem ids k ≡ false → remove_first k (ids ++ k ∷ []) ≡ ids
unfolding mem remove_first
remove_first-append_one k [] h = ground arith
remove_first-append_one k (i ∷ ids) h = ground (arith, remove_first-append_one k ids)
