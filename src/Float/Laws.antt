-- ===== src/Float/Laws.antt =====
-- What IEEE 754 says of the operations: whole numbers below 2^53 are exact, and rounding is
-- monotone. Tests/Floats has arithmetics with these laws.
use microchat_ai.Prelude.{ℕ, Bool, pos, ◌≡◌, ◌≤◌, ◌<◌, ◌+◌, ◌-◌, ◌*◌, ◌^◌, ltb, suc}
use microchat_ai.Float.{Float64, num}

-- `Le` is the order `<=` of IEEE 754, in which NaN is above and below nothing. Each operation has a
-- whole number below 2^53 on one side, and a product a number from 0 to 1 on the other, so that no
-- result overflows to an infinity or is NaN.
pub record IsFloat (F : Type 0) ⦃f : Float64 F⦄ : Type 1 where
  pub Le : F → F → Type 0
  pub num_le : (a b : ℕ) → a ≤ b → b < 2 ^ 53 → Le (num a) (num b)
  pub div_mono :
      (x y : F) (b c : ℕ)
      → 0 < c
      → c < 2 ^ 53
      → b < 2 ^ 53
      → Le (num 0) x
      → Le x y
      → Le y (num b)
      → Le (f.div x (num c)) (f.div y (num c))
  pub div_exact :
      (a b : ℕ) → 0 < b → b < 2 ^ 53 → a * b < 2 ^ 53 → f.div (num (a * b)) (num b) ≡ num a
  pub mul_mono :
      (x y : F) (n : ℕ)
      → n < 2 ^ 53
      → Le (num 0) x
      → Le x y
      → Le y (num 1)
      → Le (f.mul x (num n)) (f.mul y (num n))
  pub mul_zero : (n : ℕ) → n < 2 ^ 53 → f.mul (num 0) (num n) ≡ num 0
  pub mul_one : (n : ℕ) → n < 2 ^ 53 → f.mul (num 1) (num n) ≡ num n
  pub sub_mono :
      (x y : F) (n b : ℕ)
      → n < 2 ^ 53
      → b < 2 ^ 53
      → Le (num n) x
      → Le x y
      → Le y (num b)
      → Le (f.sub x (num n)) (f.sub y (num n))
  pub sub_exact : (a b : ℕ) → b ≤ a → a < 2 ^ 53 → f.sub (num a) (num b) ≡ num (a - b)
  pub add_mono :
      (x y : F) (n b : ℕ)
      → n < 2 ^ 53
      → b < 2 ^ 53
      → Le (num 0) x
      → Le x y
      → Le y (num b)
      → Le (f.add (num n) x) (f.add (num n) y)
  pub add_exact : (a b : ℕ) → a + b < 2 ^ 53 → f.add (num a) (num b) ≡ num (a + b)
  pub trunc_between :
      (x : F) (a b : ℕ)
      → Le (num a) x
      → Le x (num b)
      → b < 2 ^ 53
      → (n : ℕ) × (f.trunc x ≡ pos n) × (a ≤ n) × (n ≤ b) × Le (num n) x × Le x (num (suc n))

-- Two quotients of small counts compare as the fractions do, and 0/0, which is NaN, is above
-- nothing.
pub record IsRatio (F : Type 0) ⦃f : Float64 F⦄ : Type 0 where
  pub gt-div :
      (a b c d : ℕ)
      → a < 2 ^ 25
      → b < 2 ^ 25
      → c < 2 ^ 25
      → d < 2 ^ 25
      → 0 < b
      → 0 < d
      → f.gt (f.div (num a) (num b)) (f.div (num c) (num d)) ≡ ltb (c * b) (a * d)
  pub gt_nan : (x : F) → f.gt (f.div (num 0) (num 0)) x ≡ Bool.false
