-- ===== src/Tests/Floats.antt =====
-- Two arithmetics that have the laws of float64 that the theorems ask for: thousandths, rounded
-- down, and fractions.
use microchat_ai.Prelude.{ℕ, pos, pos_part, refl, ◌≤◌, ◌<◌, ◌+◌, ◌-◌, ◌*◌, ◌/◌, ltb, ◌==◌, arith}
use native.Mathlib.Nat.{
  le-div_iff_mul-le, div-mul-le_self, div-eq_of_eq-mul_left, mul-le-mul_right, mul-mul-mul_comm,
  zero-mul, mul-zero, mul-one, one-mul,
}
use microchat_ai.Float.{Float64}
use microchat_ai.Float.Laws.{IsFloat, IsRatio}

instance abbrev pub thousandths : Float64 ℕ
thousandths = record {
  of_int = λ z. 1000 * pos_part z;
  add = λ a b. a + b;
  sub = λ a b. a - b;
  mul = λ a b. a * b / 1000;
  div = λ a b. a * 1000 / b;
  trunc = λ a. pos (a / 1000);
  eq = λ a b. a == b;
  gt = λ a b. ltb b a;
}

div-le-div : (m n k : ℕ) → 0 < k → m ≤ n → m / k ≤ n / k
div-le-div m n k h le = (le-div_iff_mul-le h).1 (omega (arith, div-mul-le_self m k))

pub thousandths-IsFloat : IsFloat ℕ
thousandths-IsFloat = record {
  Le = ◌≤◌;
  num_le = λ a b p _. omega arith;
  div_mono = λ x y b c p _ _ _ q _.
      div-le-div (x * 1000) (y * 1000) (1000 * c) (omega arith) (omega arith);
  div_exact = λ a b p _ q.
      div-eq_of_eq-mul_left (omega arith) (omega (arith, mul-mul-mul_comm 1000 a 1000 b));
  mul_mono = λ x y n _ _ p _.
      div-le-div (x * (1000 * n)) (y * (1000 * n)) 1000 (omega arith)
        (mul-le-mul_right (1000 * n) p);
  mul_zero = λ n _. rw (zero-mul (1000 * n)) refl;
  mul_one = λ n _. omega arith;
  sub_mono = λ x y n b _ _ _ p _. omega arith;
  sub_exact = λ a b p q. omega arith;
  add_mono = λ x y n b _ _ _ p _. omega arith;
  add_exact = λ a b p. omega arith;
  trunc_between =
      λ x a b p q s. (x / 1000, refl, omega arith, omega arith, omega arith, omega arith);
}

-- A fraction, with 0 below the line for what is no number.
pub record Fraction : Type 0 where
  pub over : ℕ
  pub under : ℕ

abbrev pub fraction : ℕ → ℕ → Fraction
fraction a b = record { over = a; under = b }

instance abbrev pub fractions : Float64 Fraction
fractions = record {
  of_int = λ z. fraction (pos_part z) 1;
  add = λ a b. fraction (a.over * b.under + b.over * a.under) (a.under * b.under);
  sub = λ a b. fraction (a.over * b.under - b.over * a.under) (a.under * b.under);
  mul = λ a b. fraction (a.over * b.over) (a.under * b.under);
  div = λ a b. fraction (a.over * b.under) (a.under * b.over);
  trunc = λ a. pos (a.over / a.under);
  eq = λ a b. (a.over * b.under) == (b.over * a.under);
  gt = λ a b. ltb (b.over * a.under) (a.over * b.under);
}

pub fractions-IsRatio : IsRatio Fraction
fractions-IsRatio = record {
  gt-div = λ a b c d _ _ _ _ _ _. simp (mul-one, one-mul) refl;
  gt_nan = λ x. rw (mul-zero x.over, zero-mul x.under) refl;
}
