-- ===== src/LoadTest/Percentile/Bounds.antt =====
-- The percentile of sorted latencies.
use microchat_ai.Prelude.{
  ◌>>=◌, ℕ, ℤ, zero, suc, pos, List, [], ◌∷◌, ◌≡◌, refl, ap, ◌≤◌, ◌<◌, ◌+◌, ◌-◌, ◌^◌, Outcome,
  returns, length, get_elem?, some, All, arith, Bool-cases, subst, false, inl, inr, leb_ℤ, ◌∙◌,
}
use microchat_ai.Float.{Float64, num}
use microchat_ai.Float.Laws.{IsFloat}
use microchat_ai.LoadTest.Percentile.{
  calculate_percentile, at_index, interpolate, element, between, suc_ℤ,
}
use microchat_ai.LoadTest.Percentile.Sorting.{IsSorted}

-- A value of the outcome, with its bounds.
abbrev pub IsWithin : ℕ → ℕ → Outcome ℤ → Type 0
IsWithin low high o = (n : ℕ) × (o ≡ returns (pos n)) × (low ≤ n) × (n ≤ high)

get_elem?-All :
    (P : ℕ → Type 0) (l : List ℕ) (i : ℕ)
    → All P l
    → i < length l
    → (a : ℕ) × (get_elem? l i ≡ some a) × P a
get_elem?-All P [] i h r = ground arith
get_elem?-All P (x ∷ xs) zero h r = (x, refl, h.0)
get_elem?-All P (x ∷ xs) (suc i) h r = get_elem?-All P xs i h.1 (omega arith)

lt_of_not-leb : (n i : ℕ) → leb_ℤ (pos n) (pos i) ≡ false → i < n
lt_of_not-leb n i h = ground arith

-- Two neighbours of a sorted list, in order.
neighbours :
    (low high : ℕ) (l : List ℕ) (i : ℕ)
    → IsSorted l
    → All (λ x. low ≤ x) l
    → All (λ x. x ≤ high) l
    → suc i < length l
    → (a : ℕ) × (b : ℕ) × (get_elem? l i ≡ some a)
      × (get_elem? l (suc i) ≡ some b)
      × (a ≤ b)
      × (low ≤ a)
      × (b ≤ high)
neighbours low high [] i s h k r = ground arith
neighbours low high (x ∷ []) zero s h k r = ground arith
neighbours low high (x ∷ y ∷ ys) zero s h k r = (x, y, refl, refl, s.0.0, h.0, k.1.0)
neighbours low high (x ∷ xs) (suc i) s h k r = neighbours low high xs i s.1 h.1 k.1 (omega arith)

module _ {F : Type 0} ⦃f : Float64 F⦄ (laws : IsFloat F) where
  pub le_of_eq : {x y z : F} → x ≡ z → laws.Le x y → laws.Le z y
  le_of_eq {y} e h = subst (λ v. laws.Le v y) e h

  pub le_to_eq : {x y z : F} → y ≡ z → laws.Le x y → laws.Le x z
  le_to_eq {x} e h = subst (λ v. laws.Le x v) e h

  num-sub : (a b d : ℕ) → a ≡ d + b → a < 2 ^ 53 → f.sub (num a) (num b) ≡ num d
  num-sub a b d e small = laws.sub_exact a b (omega arith) small ∙ ap num (omega arith)

  num-add : (a b c : ℕ) → a + b ≡ c → c < 2 ^ 53 → f.add (num a) (num b) ≡ num c
  num-add a b c e small = laws.add_exact a b (omega arith) ∙ ap num e

  same : (a : ℕ) → a < 2 ^ 53 → laws.Le (num a) (num a)
  same a small = laws.num_le a a (omega arith) small

  -- A part of a number.
  mul-le :
      (x : F) (n : ℕ)
      → n < 2 ^ 53
      → laws.Le (num 0) x
      → laws.Le x (num 1)
      → laws.Le (num 0) (f.mul x (num n)) × laws.Le (f.mul x (num n)) (num n)
  mul-le x n small low high = (
    le_of_eq (laws.mul_zero n small)
        (laws.mul_mono (num 0) x n small (same 0 (omega arith)) low high),
    le_to_eq (laws.mul_one n small)
        (laws.mul_mono x (num 1) n small low high (same 1 (omega arith))),
  )

  -- Interpolation between two numbers, from an index between `i` and `i + 1`.
  between-IsWithin :
      (index : F) (i a b : ℕ)
      → laws.Le (num i) index
      → laws.Le index (num (suc i))
      → suc i < 2 ^ 53
      → a ≤ b
      → b < 2 ^ 53
      → (n : ℕ) × (between index (pos i) a b ≡ pos n) × (a ≤ n) × (n ≤ b)
  between-IsWithin index i a b ge le small ab bsmall =
      let low =
        le_of_eq (num-sub i i 0 (omega arith) (omega arith)) (
          laws.sub_mono (num i) index i (suc i) (omega arith) small (same i (omega arith)) ge le) in
      let high = le_to_eq (num-sub (suc i) i 1 (omega arith) small) (
        laws.sub_mono index (num (suc i)) i (suc i) (omega arith) small ge le
          (same (suc i) small)) in
      let (from, to) = mul-le (f.sub index (num i)) (b - a) (omega arith) low high in
      let part = f.mul (f.sub index (num i)) (num (b - a)) in
      let (n, e, ge', le', _, _) =
        laws.trunc_between (f.add (num a) part) a b
          (le_of_eq (num-add a 0 a (omega arith) (omega arith)) (
            laws.add_mono (num 0) part a (b - a) (omega arith) (omega arith) (same 0 (omega arith))
              from to))
          (le_to_eq (num-add a (b - a) b (omega arith) bsmall) (
            laws.add_mono part (num (b - a)) a (b - a) (omega arith) (omega arith) from to
              (same (b - a) (omega arith))))
          bsmall in
      (
        n,
        ap (λ d. f.trunc (f.add (num a) (f.mul (f.sub index (num i)) d)))
              (num-sub b a (b - a) (omega arith) bsmall)
            ∙ e,
        ge',
        le',
      )

  module _ (low high : ℕ) (l : List ℕ) (sorted : IsSorted l) (above : All (λ x. low ≤ x) l)
      (below : All (λ x. x ≤ high) l) (small : high < 2 ^ 53) (few : length l < 2 ^ 53) where
    element-IsWithin :
        (i : ℕ) → i < length l → IsWithin low high (element l (pos i) >>= λ a. returns (pos a))
    unfolding element
    element-IsWithin i h =
        let (a, e, ge) = get_elem?-All (λ x. low ≤ x) l i above h in
        let (b, e', le) = get_elem?-All (λ x. x ≤ high) l i below h in (a, rw e, ge, ground arith)

    interpolate-IsWithin :
        (index : F) (i : ℕ)
        → i < length l
        → laws.Le (num i) index
        → laws.Le index (num (suc i))
        → IsWithin low high (interpolate l index (pos i))
    unfolding interpolate element suc_ℤ
    interpolate-IsWithin index i h ge le =
        elim (Bool-cases (leb_ℤ (pos (length l)) (pos (suc i)))) [
          | inl last ↦ rw last (element-IsWithin i h)
          | inr inner ↦
              let (a, b, ea, eb, ab, la, bh) =
                neighbours low high l i sorted above below
                  (lt_of_not-leb (length l) (suc i) inner) in
              let (n, e, an, nb) =
                between-IsWithin index i a b ge le (omega arith) ab (omega arith) in
              (n, rw (inner, ea, eb) (ap returns e), omega arith, omega arith)
        ]

    at_index-IsWithin :
        (index : F) (n : ℕ)
        → suc n ≡ length l
        → laws.Le (num 0) index
        → laws.Le index (num n)
        → IsWithin low high (at_index l index)
    unfolding at_index
    at_index-IsWithin index n e ge le =
        let (i, t, _, within, ge', le') = laws.trunc_between index 0 n ge le (omega arith) in
        elim (Bool-cases (f.eq index (f.of_int (f.trunc index)))) [
          | inl whole ↦ rw (whole, t) (element-IsWithin i (omega arith))
          | inr part ↦ rw (part, t) (interpolate-IsWithin index i (omega arith) ge' le')
        ]

  -- For a percentile from 0 to 100, and sorted latencies that are not empty and below 2^53
  -- nanoseconds: no index is out of range, and the result is at least any lower bound and at most
  -- any upper bound of the latencies.
  pub calculate_percentile-IsWithin :
      (low high x : ℕ) (xs : List ℕ) (percentile : F)
      → laws.Le (num 0) percentile
      → laws.Le percentile (num 100)
      → IsSorted (x ∷ xs)
      → All (λ y. low ≤ y) (x ∷ xs)
      → All (λ y. y ≤ high) (x ∷ xs)
      → high < 2 ^ 53
      → length (x ∷ xs) < 2 ^ 53
      → IsWithin low high (calculate_percentile (x ∷ xs) percentile)
  unfolding calculate_percentile
  calculate_percentile-IsWithin low high x xs percentile ge le sorted above below small few =
      let from = le_of_eq (laws.div_exact 0 100 (omega arith) (omega arith) (omega arith)) (
        laws.div_mono (num 0) percentile 100 100 (omega arith) (omega arith) (omega arith)
          (same 0 (omega arith)) ge le) in
      let to = le_to_eq (laws.div_exact 1 100 (omega arith) (omega arith) (omega arith)) (
        laws.div_mono percentile (num 100) 100 100 (omega arith) (omega arith) (omega arith) ge le
          (same 100 (omega arith))) in
      let (ge', le') = mul-le (f.div percentile (num 100)) (length xs) (omega arith) from to in
      at_index-IsWithin low high (x ∷ xs) sorted above below small few
        (f.mul (f.div percentile (num 100)) (num (length xs))) (length xs) refl ge' le'
