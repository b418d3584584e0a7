-- ===== src/Exec/Post.antt =====
-- What holds of the value and the state of a call that returns.
use bfbt.Base.{◌≡◌, refl, subst, Bool, true, false}
use bfbt.Exec.{Result, ok, err, Exec, continue, raise_if}

module _ {E S A : Type 0} where
  abbrev pub Post : (A → S → Type 0) → Result E A × S → Type 0
  Post Q (ok a, s) = Q a s
  Post Q (err e, s) = Unit

  pub Post-ok :
      (Q : A → S → Type 0) (r : Result E A × S) {a : A} {s : S} → Post Q r → r ≡ (ok a, s) → Q a s
  Post-ok Q r h e = subst (Post Q) e h

  pub kept-Post : (P : S → Type 0) (r : Result E A × S) → P r.1 → Post (λ a s. P s) r
  kept-Post P (ok a, s) h = h
  kept-Post P (err e, s) h = tt

module _ {E S A B : Type 0} where
  pub continue-Post :
      (R : A → S → Type 0) (Q : B → S → Type 0) (r : Result E A × S) (f : A → Exec E S B)
      → Post R r
      → ((a : A) (s : S) → R a s → Post Q (f a s))
      → Post Q (continue r f)
  continue-Post R Q (ok a, s) f h k = k a s h
  continue-Post R Q (err e, s) f h k = tt

  pub lift-Post :
      (Q : B → S → Type 0) (r : Result E A) (s : S) (f : A → Exec E S B)
      → ((a : A) → (r ≡ ok a) → Post Q (f a s))
      → Post Q (continue (r, s) f)
  lift-Post Q (ok a) s f k = k a refl
  lift-Post Q (err e) s f k = tt

module _ {E S B : Type 0} where
  pub raise_if-Post :
      (Q : B → S → Type 0) (c : Bool) (e : E) (s : S) (f : Unit → Exec E S B)
      → (c ≡ false → Post Q (f tt s))
      → Post Q (continue (raise_if c e s) f)
  raise_if-Post Q true e s f k = tt
  raise_if-Post Q false e s f k = k refl

module _ {E S A : Type 0} where
  pub Post-map :
      (R Q : A → S → Type 0) (r : Result E A × S)
      → ((a : A) (s : S) → R a s → Q a s)
      → Post R r
      → Post Q r
  Post-map R Q (ok a, s) k h = k a s h
  Post-map R Q (err e, s) k h = tt
