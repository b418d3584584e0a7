-- ===== src/Position/Bisect.antt =====
-- What `_limit_opening` leaves of a trade violates no constraint.
use bfbt.Base.{
  ℕ, zero, suc, ◌≡◌, refl, sym, subst, ◌⊎◌, inl, inr, Bool, true, false, not, List, [], ◌∷◌, arith,
  if◌then◌else◌, Bool-cases,
}
use bfbt.Contracts.{ReasonCode}
use bfbt.Dict.{Dict}
use bfbt.Float.{Float, FloatMath}
use bfbt.Position.State.{Account, Engine, is_empty}
use bfbt.Position.Limit.{
  bisection_rounds, bisect, opening_violations, is_add_rejected, scaled_opening, limit_opening,
}

-- What multiplication by zero promises of a finite number.
pub record HasZero (F : Type 0) ⦃f : Float F⦄ : Type 0 where
  pub mul_nought : (a : F) → f.is_finite a ≡ true → f.le (f.abs (f.mul a f.nought)) f.epsilon ≡ true

empty_of : (xs : List ReasonCode) → not (is_empty xs) ≡ false → xs ≡ []
empty_of [] h = refl
empty_of (x ∷ xs) h = cc

module _ {F : Type 0} ⦃f : Float F⦄ ⦃m : FloatMath F⦄ where
  -- The bisection ends where it began or at a share that violates nothing.
  bisect-low :
      (violates : F → Bool) (rounds : ℕ) (low high : F)
      → (bisect violates rounds low high ≡ low)
        ⊎ (violates (bisect violates rounds low high) ≡ false)
  unfolding bisect
  bisect-low violates zero low high = inl refl
  bisect-low violates (suc rounds) low high =
      let middle = m.div (f.add low high) m.two in
      elim (Bool-cases (violates middle)) [
        | inl e ↦ rw (e) (bisect-low violates rounds low middle)
        | inr e ↦ elim (bisect-low violates rounds middle high) [
          | inl h ↦ inr (rw (e, h) e)
          | inr h ↦ inr (rw (e) h)
        ]
      ]

  scale_share :
      ⦃z : HasZero F⦄
      → (violates : F → Bool) (opening share : F) → f.is_finite opening ≡ true
      → (share ≡ f.nought) ⊎ (violates (f.mul opening share) ≡ false)
      → ((if f.le (f.abs (f.mul opening share)) f.epsilon then f.nought else f.mul opening share)
          ≡ f.nought)
        ⊎ (violates (
              if f.le (f.abs (f.mul opening share)) f.epsilon
              then f.nought
              else f.mul opening share)
            ≡ false)
  scale_share ⦃z⦄ violates opening share finite h =
      elim (Bool-cases (f.le (f.abs (f.mul opening share)) f.epsilon)) [
        | inl e ↦ inl (rw (e) refl)
        | inr e ↦ elim h [
          | inl n ↦ absurd (
              ground (
                arith,
                e,
                subst (λ x. f.le (f.abs (f.mul opening x)) f.epsilon ≡ true) (sym n)
                    (z.mul_nought opening finite),
              ))
          | inr n ↦ inr (rw (e) n)
        ]
      ]

  scaled_opening-safe :
      ⦃z : HasZero F⦄
      → (rounds : ℕ) (violates : F → Bool) (opening : F) → f.is_finite opening ≡ true
      → (scaled_opening rounds violates opening ≡ f.nought)
        ⊎ (violates (scaled_opening rounds violates opening) ≡ false)
  unfolding scaled_opening
  scaled_opening-safe rounds violates opening finite =
      let share = bisect (λ x. violates (f.mul opening x)) rounds f.nought f.unit in
      scale_share violates opening share finite
        (bisect-low (λ x. violates (f.mul opening x)) rounds f.nought f.unit)

  -- What is left violates nothing, and it is everything unless a reason is given.
  abbrev pub IsLimited : (F → List ReasonCode) → F → F × List ReasonCode → Type 0
  IsLimited violations opening r =
      ((r.0 ≡ f.nought) ⊎ (violations r.0 ≡ []))
      × ((f.le (f.abs opening) f.epsilon ≡ true) ⊎ ((is_empty r.1 ≡ false) ⊎ (r.0 ≡ opening)))

  -- The opening that `_limit_opening` leaves of a finite one is nothing or violates no constraint;
  -- and unless the opening is within the tolerance, it is left whole or a reason is given.
  pub limit_opening-IsLimited :
      ⦃z : HasZero F⦄
      → (e : Engine F) (marks : Dict F) (equity turnover closed : F) (s : Account F) (symbol : ℕ)
      → (old opening : F) → f.is_finite opening ≡ true
      → IsLimited
          (opening_violations e marks equity turnover closed s symbol old)
          opening
          (limit_opening e marks equity turnover closed s symbol old opening)
  unfolding limit_opening
  limit_opening-IsLimited ⦃z⦄ e marks equity turnover closed s symbol old opening finite =
      let violations = opening_violations e marks equity turnover closed s symbol old in
      let scaled = scaled_opening bisection_rounds (λ x. not (is_empty (violations x))) opening in
      elim (Bool-cases (f.le (f.abs opening) f.epsilon)) [
        | inl a ↦ rw (a) ((inl refl, inl refl))
        | inr a ↦ elim (Bool-cases (is_add_rejected e s symbol old opening)) [
          | inl b ↦ rw (a, b) ((inl refl, inr (inl refl)))
          | inr b ↦ elim (Bool-cases (is_empty (violations opening))) [
            | inl c ↦
                rw (a, b, c)
                  ((inr (empty_of (violations opening) (ground (arith, c))), inr (inr refl)))
            | inr c ↦
                rw (a, b, c)
                  ((
                    elim (scaled_opening-safe bisection_rounds (λ x. not (is_empty (violations x)))
                        opening finite) [
                          | inl n ↦ inl n
                          | inr n ↦ inr (empty_of (violations scaled) n)
                        ],
                    inr (inl c),
                  ))
          ]
        ]
      ]
