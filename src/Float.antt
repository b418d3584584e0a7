-- ===== src/Float.antt =====
-- What the code does with Python's `float`: IEEE-754 numbers are an interface. Python's `min` and
-- `max` keep their first argument unless the second is strictly beyond it.
use bfbt.Base.{Bool, true, false, ◌≡◌, List, if◌then◌else◌}

pub record Float (F : Type 0) : Type 0 where
  pub nought : F
  pub unit : F
  pub epsilon : F
  pub add : F → F → F
  pub sub : F → F → F
  pub mul : F → F → F
  pub neg : F → F
  pub abs : F → F
  pub lt : F → F → Bool
  pub le : F → F → Bool
  pub is_finite : F → Bool

module _ {F : Type 0} ⦃f : Float F⦄ where
  -- `max(a, b)` and `min(a, b)`.
  abbrev pub fmax : F → F → F
  fmax a b = if f.lt a b then b else a

  abbrev pub fmin : F → F → F
  fmin a b = if f.lt b a then b else a

-- What the sizing of positions uses beyond that. `total` is Python's `sum`, whose rounding depends on
-- the version of Python; `floor` is `math.floor` as a float again; `is_close` is `math.isclose` with
-- the two tolerances given.
pub record FloatMath (F : Type 0) : Type 0 where
  pub div : F → F → F
  pub floor : F → F
  pub total : List F → F
  pub is_close : F → F → (relative absolute : F) → Bool
  pub two : F
  pub ten_thousand : F
  pub tiny : F
  pub relative_tolerance : F

-- What comparison promises of finite numbers.
pub record IsTotal (F : Type 0) ⦃f : Float F⦄ : Type 0 where
  pub le_of_lt_false :
      (a b : F) → f.is_finite a ≡ true → f.is_finite b ≡ true → f.lt a b ≡ false → f.le b a ≡ true
