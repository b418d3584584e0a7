-- ===== src/Base/Counts.antt =====
-- How often a test holds in a list, through appending, mapping and sorting.
use Prim.Native.Nat.{ℕ, ◌+◌, ◌≤◌}
use mathlib.Core.Path.{◌≡◌, refl}
use mathlib.Core.Logic.{inl, inr}
use mathlib.Core.Bool.{Bool, true, false}
use mathlib.Core.List.{List, [], ◌∷◌, ◌++◌, map}
use native.Mathlib.Omega.{arith}
use bfbt.Base.Tests.{Bool-cases}
use bfbt.Base.Lists.{length, filter, any, All, place_by, sort_by}

module _ {ℓ} {A : Type ℓ} where
  abbrev pub count : (A → Bool) → List A → ℕ
  count p xs = length (filter p xs)

  pub count-append : (p : A → Bool) (xs ys : List A) → count p (xs ++ ys) ≡ count p xs + count p ys
  count-append p [] ys = omega arith
  count-append p (x ∷ xs) ys = ground (arith, count-append p xs ys)

  pub count-filter : (p q : A → Bool) (xs : List A) → count p (filter q xs) ≤ count p xs
  count-filter p q [] = omega arith
  count-filter p q (x ∷ xs) = ground (arith, count-filter p q xs)

  pub count-any : (p : A → Bool) (xs : List A) → any p xs ≡ true → 1 ≤ count p xs
  count-any p [] h = absurd (ground arith)
  count-any p (x ∷ xs) h = ground (arith, count-any p xs)

  pub any-false-count : (p : A → Bool) (xs : List A) → any p xs ≡ false → count p xs ≡ 0
  any-false-count p [] h = refl
  any-false-count p (x ∷ xs) h = ground (arith, any-false-count p xs)

  count-place_by :
      (p : A → Bool) (b : A → A → Bool) (x : A) (xs : List A)
      → count p (place_by b x xs) ≡ count p (x ∷ xs)
  unfolding place_by
  count-place_by p b x [] = refl
  count-place_by p b x (y ∷ ys) = ground (arith, count-place_by p b x ys)

  -- A sort keeps what a list holds.
  pub count-sort_by :
      (p : A → Bool) (b : A → A → Bool) (xs : List A) → count p (sort_by b xs) ≡ count p xs
  unfolding sort_by
  count-sort_by p b [] = refl
  count-sort_by p b (x ∷ xs) =
      ground (arith, count-sort_by p b xs, count-place_by p b x (sort_by b xs))

  pub All-place_by {κ} :
      (P : A → Type κ) (b : A → A → Bool) (x : A) (xs : List A)
      → P x
      → All P xs
      → All P (place_by b x xs)
  unfolding place_by
  All-place_by P b x [] h k = (h, tt)
  All-place_by P b x (y ∷ ys) h k = elim (Bool-cases (b x y)) [
    | inl e ↦ rw (All, e) (h, k)
    | inr e ↦ rw (All, e) (k.0, All-place_by P b x ys h k.1)
  ]

  pub All-sort_by {κ} :
      (P : A → Type κ) (b : A → A → Bool) (xs : List A) → All P xs → All P (sort_by b xs)
  unfolding sort_by
  All-sort_by P b [] h = tt
  All-sort_by P b (x ∷ xs) (h, hs) = All-place_by P b x (sort_by b xs) h (All-sort_by P b xs hs)

  pub All-filter {κ} :
      (P : A → Type κ) (p : A → Bool) (xs : List A) → All P xs → All P (filter p xs)
  All-filter P p [] h = tt
  All-filter P p (x ∷ xs) (h, hs) = elim (Bool-cases (p x)) [
    | inl e ↦ rw (All, e) (h, All-filter P p xs hs)
    | inr e ↦ rw (All, e) (All-filter P p xs hs)
  ]

  pub filter-All : (p : A → Bool) (xs : List A) → All (λ x. p x ≡ true) (filter p xs)
  filter-All p [] = tt
  filter-All p (x ∷ xs) = elim (Bool-cases (p x)) [
    | inl e ↦ rw (All, e) ((e, filter-All p xs))
    | inr e ↦ rw (All, e) (filter-All p xs)
  ]

module _ {ℓ κ} {A : Type ℓ} {B : Type κ} where
  pub count-map :
      (p : B → Bool) (q : A → Bool) (f : A → B)
      → ((x : A) → p (f x) ≡ q x)
      → (xs : List A) → count p (map f xs) ≡ count q xs
  count-map p q f e [] = refl
  count-map p q f e (x ∷ xs) = ground (arith, e x, count-map p q f e xs)
