-- ===== src/LoadTest/Percentile.antt =====
-- cmd/loadtest/main.go: calculatePercentile, and sort.Slice on the latencies. A sorted
-- rearrangement of numbers is unique, so any sorting routine stands for sort.Slice.
pub mod Sorting
pub mod Bounds
use microchat_ai.Prelude.{
  ℕ, ℤ, zero, suc, pos, negsuc, none, some, Option, List, [], ◌∷◌, Outcome, returns, panics, length,
  get_elem?, if◌then◌else◌, ltb, leb_ℤ, ◌>>=◌,
}
use microchat_ai.Float.{Float64, num}

unfoldable pub insert : ℕ → List ℕ → List ℕ
insert x [] = x ∷ []
insert x (y ∷ ys) = let rest = insert x ys in if ltb x y then x ∷ y ∷ ys else y ∷ rest

unfoldable pub insert_all : List ℕ → List ℕ → List ℕ
unfolding insert
insert_all sorted [] = sorted
insert_all sorted (x ∷ xs) = insert_all (insert x sorted) xs

unfoldable pub sort_latencies : List ℕ → List ℕ
unfolding insert_all
sort_latencies latencies = insert_all [] latencies

-- An index that is negative or past the end panics.
abbrev in_range : Option ℕ → Outcome ℕ
in_range none = panics
in_range (some latency) = returns latency

unfoldable pub element : List ℕ → ℤ → Outcome ℕ
element l (pos i) = in_range (get_elem? l i)
element l (negsuc i) = panics

unfoldable pub suc_ℤ : ℤ → ℤ
suc_ℤ (pos n) = pos (suc n)
suc_ℤ (negsuc zero) = pos 0
suc_ℤ (negsuc (suc n)) = negsuc n

module _ {F : Type 0} ⦃f : Float64 F⦄ where
  -- lowerVal + weight*(upperVal-lowerVal)
  abbrev pub between : F → ℤ → ℕ → ℕ → ℤ
  between index lower a b =
      f.trunc (f.add (num a) (f.mul (f.sub index (f.of_int lower)) (f.sub (num b) (num a))))

  unfoldable pub interpolate : List ℕ → F → ℤ → Outcome ℤ
  unfolding element suc_ℤ
  interpolate l index lower =
      if leb_ℤ (pos (length l)) (suc_ℤ lower)
      then (do a ← element l lower; returns (pos a))
      else (do a ← element l lower; b ← element l (suc_ℤ lower); returns (between index lower a b))

  unfoldable pub at_index : List ℕ → F → Outcome ℤ
  unfolding element interpolate
  at_index l index =
      if f.eq index (f.of_int (f.trunc index))
      then (do a ← element l (f.trunc index); returns (pos a))
      else interpolate l index (f.trunc index)

  unfoldable pub calculate_percentile : List ℕ → F → Outcome ℤ
  unfolding at_index
  calculate_percentile [] percentile = returns (pos 0)
  calculate_percentile (x ∷ xs) percentile =
      at_index (x ∷ xs) (f.mul (f.div percentile (num 100)) (num (length xs)))
