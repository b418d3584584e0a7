-- ===== src/Tests/Fixed.antt =====
-- Fixed-point numbers with two decimals, as a concrete instance of the float interface.
use bfbt.Base.{
  ℕ, zero, suc, ◌+◌, ◌-◌, ◌*◌, ◌/◌, ◌≡◌, refl, Bool, true, false, arith, List, [], ◌∷◌, ltb, leb,
  if◌then◌else◌,
}
use bfbt.Float.{Float, FloatMath, IsTotal}
use bfbt.Position.Bisect.{HasZero}

-- `plus n` is n hundredths and `minus n` is n + 1 hundredths below zero.
pub data Fixed : Type 0 where
  plus minus : ℕ → Fixed

abbrev negate : Fixed → Fixed
negate (plus zero) = plus 0
negate (plus (suc n)) = minus n
negate (minus n) = plus (suc n)

abbrev difference : ℕ → ℕ → Fixed
difference a b = if leb b a then plus (a - b) else minus (b - a - 1)

abbrev sum : Fixed → Fixed → Fixed
sum (plus a) (plus b) = plus (a + b)
sum (plus a) (minus b) = difference a (suc b)
sum (minus a) (plus b) = difference b (suc a)
sum (minus a) (minus b) = minus (suc (a + b))

abbrev product : Fixed → Fixed → Fixed
product (plus a) (plus b) = plus (a * b / 100)
product (plus a) (minus b) = negate (plus (a * suc b / 100))
product (minus a) (plus b) = negate (plus (suc a * b / 100))
product (minus a) (minus b) = plus (suc a * suc b / 100)

abbrev size : Fixed → Fixed
size (plus n) = plus n
size (minus n) = plus (suc n)

abbrev below : Fixed → Fixed → Bool
below (plus a) (plus b) = ltb a b
below (plus a) (minus b) = false
below (minus a) (plus b) = true
below (minus a) (minus b) = ltb b a

abbrev at_most : Fixed → Fixed → Bool
at_most (plus a) (plus b) = leb a b
at_most (plus a) (minus b) = false
at_most (minus a) (plus b) = true
at_most (minus a) (minus b) = leb b a

instance abbrev pub fixed_float : Float Fixed
fixed_float = record {
  nought = plus 0;
  unit = plus 100;
  epsilon = plus 0;
  add = sum;
  sub = λ a b. sum a (negate b);
  mul = product;
  neg = negate;
  abs = size;
  lt = below;
  le = at_most;
  is_finite = λ a. true;
}

-- Euclidean quotients of hundredths, rounded towards zero.
abbrev ratio : ℕ → ℕ → ℕ
ratio a zero = 0
ratio a (suc b) = a * 100 / suc b

abbrev quotient : Fixed → Fixed → Fixed
quotient (plus a) (plus b) = plus (ratio a b)
quotient (plus a) (minus b) = negate (plus (ratio a (suc b)))
quotient (minus a) (plus b) = negate (plus (ratio (suc a) b))
quotient (minus a) (minus b) = plus (ratio (suc a) (suc b))

-- The whole number below.
abbrev floored : Fixed → Fixed
floored (plus a) = plus (a / 100 * 100)
floored (minus a) = negate (plus ((a / 100 + 1) * 100))

abbrev summed : List Fixed → Fixed
summed [] = plus 0
summed (x ∷ xs) = sum x (summed xs)

instance abbrev pub fixed_math : FloatMath Fixed
fixed_math = record {
  div = quotient;
  floor = floored;
  total = summed;
  is_close = λ a b relative absolute. at_most (size (sum a (negate b))) absolute;
  two = plus 200;
  ten_thousand = plus 1000000;
  tiny = plus 0;
  relative_tolerance = plus 0;
}

le_of_below : (a b : Fixed) → below a b ≡ false → at_most b a ≡ true
le_of_below (plus a) (plus b) h = ground arith
le_of_below (plus a) (minus b) h = refl
le_of_below (minus a) (plus b) h = absurd (ground arith)
le_of_below (minus a) (minus b) h = ground arith

pub fixed-IsTotal : IsTotal Fixed
fixed-IsTotal = record { le_of_lt_false = λ a b _ _ h. le_of_below a b h }

product_nought : (a : Fixed) → at_most (size (product a (plus 0))) (plus 0) ≡ true
product_nought (plus a) = ground arith
product_nought (minus a) = ground arith

pub fixed-HasZero : HasZero Fixed
fixed-HasZero = record { mul_nought = λ a _. product_nought a }
