-- ===== src/Float.antt =====
-- The float64 of Go: the operations that the program uses of it, for the conversions of numbers
-- up to 2^53 the exact ones.
pub mod Laws
use microchat_ai.Prelude.{ℤ, ℕ, Bool, pos}

-- `trunc` is the conversion to an integer type; `eq` and `gt` are the tests `==` and `>`.
pub record Float64 (F : Type 0) : Type 0 where
  pub of_int : ℤ → F
  pub add : F → F → F
  pub sub : F → F → F
  pub mul : F → F → F
  pub div : F → F → F
  pub trunc : F → ℤ
  pub eq : F → F → Bool
  pub gt : F → F → Bool

abbrev pub num : {F : Type 0} ⦃f : Float64 F⦄ → ℕ → F
num ⦃f⦄ n = f.of_int (pos n)
