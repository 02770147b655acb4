-- ===== src/LoadTest/Percentile/Sorting.antt =====
-- The sort of the latencies: ascending, and the same whatever their order.
use microchat_ai.Prelude.{ℕ, List, [], ◌∷◌, ◌++◌, ◌≡◌, refl, ◌≤◌, All, arith, length, suc, ◌+◌}
use microchat_ai.LoadTest.Percentile.{insert, insert_all, sort_latencies}

-- Every element is at most all later ones.
abbrev pub IsSorted : List ℕ → Type 0
IsSorted [] = Unit
IsSorted (x ∷ xs) = All (λ y. x ≤ y) xs × IsSorted xs

pub insert-commute : (x y : ℕ) (l : List ℕ) → insert x (insert y l) ≡ insert y (insert x l)
unfolding insert
insert-commute x y [] = ground arith
insert-commute x y (z ∷ zs) = ground (arith, insert-commute x y zs)

insert-All : (P : ℕ → Type 0) (x : ℕ) (l : List ℕ) → P x → All P l → All P (insert x l)
unfolding insert
insert-All P x [] p h = (p, tt)
insert-All P x (y ∷ ys) p h = ground (arith, insert-All P x ys)

All-le_trans : (a b : ℕ) (l : List ℕ) → a ≤ b → All (λ y. b ≤ y) l → All (λ y. a ≤ y) l
All-le_trans a b [] p h = tt
All-le_trans a b (x ∷ xs) p h = (omega (arith, h.0), All-le_trans a b xs p h.1)

insert-IsSorted : (x : ℕ) (l : List ℕ) → IsSorted l → IsSorted (insert x l)
unfolding insert
insert-IsSorted x [] h = (tt, tt)
insert-IsSorted x (y ∷ ys) h =
    ground (arith, All-le_trans x y ys, insert-All (λ z. y ≤ z) x ys, insert-IsSorted x ys)

insert_all-IsSorted : (l xs : List ℕ) → IsSorted l → IsSorted (insert_all l xs)
unfolding insert_all
insert_all-IsSorted l [] h = h
insert_all-IsSorted l (x ∷ xs) h = insert_all-IsSorted (insert x l) xs (insert-IsSorted x l h)

pub sort_latencies-IsSorted : (xs : List ℕ) → IsSorted (sort_latencies xs)
unfolding sort_latencies
sort_latencies-IsSorted xs = insert_all-IsSorted [] xs tt

insert_all-All : (P : ℕ → Type 0) (l xs : List ℕ) → All P l → All P xs → All P (insert_all l xs)
unfolding insert_all
insert_all-All P l [] h k = h
insert_all-All P l (x ∷ xs) h k = insert_all-All P (insert x l) xs (insert-All P x l k.0 h) k.1

pub sort_latencies-All : (P : ℕ → Type 0) (xs : List ℕ) → All P xs → All P (sort_latencies xs)
unfolding sort_latencies
sort_latencies-All P xs h = insert_all-All P [] xs tt h

insert_all-append :
    (l xs : List ℕ) (x : ℕ) → insert_all l (xs ++ (x ∷ [])) ≡ insert x (insert_all l xs)
unfolding insert_all
insert_all-append l [] x = refl
insert_all-append l (y ∷ ys) x = insert_all-append (insert y l) ys x

-- A latency at the end goes to its place.
pub sort_latencies-append :
    (xs : List ℕ) (x : ℕ) → sort_latencies (xs ++ (x ∷ [])) ≡ insert x (sort_latencies xs)
unfolding sort_latencies
sort_latencies-append xs x = insert_all-append [] xs x

length-insert : (x : ℕ) (l : List ℕ) → length (insert x l) ≡ suc (length l)
unfolding insert
length-insert x [] = refl
length-insert x (y ∷ ys) = ground (arith, length-insert x ys)

length-insert_all : (l xs : List ℕ) → length (insert_all l xs) ≡ length l + length xs
unfolding insert_all
length-insert_all l [] = omega arith
length-insert_all l (x ∷ xs) = omega (arith, length-insert_all (insert x l) xs, length-insert x l)

pub length-sort_latencies : (xs : List ℕ) → length (sort_latencies xs) ≡ length xs
unfolding sort_latencies
length-sort_latencies xs = omega (arith, length-insert_all [] xs)
