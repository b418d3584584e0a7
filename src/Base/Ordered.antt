-- ===== src/Base/Ordered.antt =====
-- A sort by a total and transitive test puts a list in order.
use mathlib.Core.Path.{◌≡◌}
use mathlib.Core.Logic.{inl, inr}
use mathlib.Core.Bool.{Bool, true, false}
use mathlib.Core.List.{List, [], ◌∷◌}
use bfbt.Base.Tests.{Bool-cases}
use bfbt.Base.Lists.{All, All-map, place_by, sort_by}
use bfbt.Base.Counts.{All-place_by}

module _ {ℓ} {A : Type ℓ} where
  -- Each row comes before all that follow it.
  abbrev pub IsOrdered : (A → A → Bool) → List A → Type ℓ
  IsOrdered b [] = Unit
  IsOrdered b (x ∷ xs) = All (λ y. b x y ≡ true) xs × IsOrdered b xs

  module _ (b : A → A → Bool) (total : (x y : A) → b x y ≡ false → b y x ≡ true)
      (trans : (x y z : A) → b x y ≡ true → b y z ≡ true → b x z ≡ true) where
    place_by-IsOrdered : (x : A) (xs : List A) → IsOrdered b xs → IsOrdered b (place_by b x xs)
    unfolding place_by
    place_by-IsOrdered x [] h = (tt, tt)
    place_by-IsOrdered x (y ∷ ys) (h, hs) = elim (Bool-cases (b x y)) [
      | inl e ↦
          rw (IsOrdered, e)
            (
              (e, All-map (λ z. b y z ≡ true) (λ z. b x z ≡ true) (λ z k. trans x y z e k) ys h),
              (h, hs),
            )
      | inr e ↦
          rw (IsOrdered, e)
            (All-place_by (λ z. b y z ≡ true) b x ys (total x y e) h, place_by-IsOrdered x ys hs)
    ]

    pub sort_by-IsOrdered : (xs : List A) → IsOrdered b (sort_by b xs)
    unfolding sort_by
    sort_by-IsOrdered [] = tt
    sort_by-IsOrdered (x ∷ xs) = place_by-IsOrdered x (sort_by b xs) (sort_by-IsOrdered xs)
