-- ===== src/PyFloat.antt =====
-- Python's `float`, as far as the modelled code computes with it: an interface of the operations,
-- and the two facts of exact arithmetic that the theorems on limits use. Values are finite.
use ai_native_hedge_fund_ch.Prelude.{
  ◌+◌, ◌-◌, ◌*◌, ◌/◌, not, ◌≡◌, Bool, false, arith, leb, if◌then◌else◌,
}
use ai_native_hedge_fund_ch.Prelude.Int.{
  ℤ, pos, negsuc, pos_part, ◌≤ℤ◌, ◌*ℤ◌, ◌+ℤ◌, ◌-ℤ◌, abs_ℤ, ltb_ℤ, eqb_ℤ,
}

pub record Float (F : Type 0) : Type 0 where
  -- `float(n)`
  pub of_int : ℤ → F
  -- `int(x)`, toward zero
  pub trunc : F → ℤ
  -- `x > y`
  pub gt : F → F → Bool
  -- `x == y`
  pub eq : F → F → Bool
  -- `not x`
  pub is_zero : F → Bool
  -- `abs(x)`
  pub magnitude : F → F
  -- `x + y`
  pub plus : F → F → F
  -- `x - y`
  pub minus : F → F → F
  -- `-x`
  pub negate : F → F
  -- `x * y`
  pub times : F → F → F
  -- `m / n` on whole numbers
  pub ratio : ℤ → ℤ → F
  -- `x / y`, for `y` above zero
  pub divide : F → F → F
  -- `x >= 0.50`
  pub at_least_half : F → Bool

-- What the theorems on limits rely on: an `int` and a finite `float` are compared exactly, and
-- `int` drops a fraction.
pub record IsExact {F : Type 0} (f : Float F) : Type 0 where
  -- A whole number from 1 up to `int(x)` is not above `x`.
  pub trunc_bound : (x : F) (n : ℤ) → pos 1 ≤ℤ n → n ≤ℤ f.trunc x → f.gt (f.of_int n) x ≡ false

-- Thousandths, on which the tests run.
abbrev pub Milli : Type 0
Milli = ℤ

trunc_milli : ℤ → ℤ
trunc_milli (pos n) = pos (n / 1000)
trunc_milli (negsuc n) = if leb 999 n then negsuc ((n + 1) / 1000 - 1) else pos 0

times_milli : ℤ → ℤ → ℤ
times_milli a b = trunc_milli (a *ℤ b)

-- For a divisor above zero.
ratio_milli : ℤ → ℤ → ℤ
ratio_milli (pos a) b = pos (a * 1000 / pos_part b)
ratio_milli (negsuc a) b = pos 0 -ℤ pos ((a + 1) * 1000 / pos_part b)

divide_milli : ℤ → ℤ → ℤ
divide_milli a b = ratio_milli a b

unfoldable pub milli : Float Milli
unfolding trunc_milli times_milli ratio_milli divide_milli ◌*ℤ◌ ◌-ℤ◌ ◌+ℤ◌
milli = record {
  of_int = λ n. n *ℤ pos 1000;
  trunc = trunc_milli;
  gt = λ x y. ltb_ℤ y x;
  eq = eqb_ℤ;
  is_zero = λ x. eqb_ℤ x (pos 0);
  magnitude = abs_ℤ;
  plus = λ x y. x +ℤ y;
  minus = λ x y. x -ℤ y;
  negate = λ x. pos 0 -ℤ x;
  times = times_milli;
  ratio = ratio_milli;
  divide = divide_milli;
  at_least_half = λ x. not (ltb_ℤ x (pos 500));
}

milli_trunc_bound :
    (x n : ℤ) → pos 1 ≤ℤ n → n ≤ℤ milli.trunc x → milli.gt (milli.of_int n) x ≡ false
unfolding milli
milli_trunc_bound (pos x) (pos n) h k = ground arith
milli_trunc_bound (pos x) (negsuc n) h k = absurd (omega arith)
milli_trunc_bound (negsuc x) (pos n) h k = ground arith
milli_trunc_bound (negsuc x) (negsuc n) h k = absurd (omega arith)

pub milli-IsExact : IsExact milli
milli-IsExact = record { trunc_bound = milli_trunc_bound }
