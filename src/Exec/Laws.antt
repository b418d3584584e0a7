-- ===== src/Exec/Laws.antt =====
-- Inversion of calls that return.
use bfbt.Base.{◌≡◌, refl, Bool, true, false, Option, none, some, ◌⊎◌, inl, inr, if◌then◌else◌}
use bfbt.Exec.{Result, ok, err, Exec, continue, raise_if, or_raise}

pub ok-injective : {E A : Type 0} {a b : A} → ◌≡◌ {A = Result E A} (ok a) (ok b) → a ≡ b
ok-injective h = cc

-- The call returns.
abbrev pub Returns : {E A : Type 0} → Result E A → Type 0
Returns {A} r = (a : A) × (r ≡ ok a)

pub Result-cases :
    {E A : Type 0} (r : Result E A) → ((e : E) × (r ≡ err e)) ⊎ ((a : A) × (r ≡ ok a))
Result-cases (ok a) = inr (a, refl)
Result-cases (err e) = inl (e, refl)

module _ {E S A B : Type 0} where
  -- A bind that returns is a call that returns, and the rest.
  pub continue-eq-ok :
      (r : Result E A × S) (f : A → Exec E S B) {b : B} {u : S}
      → continue r f ≡ (ok b, u)
      → (a : A) × (t : S) × (r ≡ (ok a, t)) × (f a t ≡ (ok b, u))
  continue-eq-ok (ok a, t) f h = (a, t, refl, h)
  continue-eq-ok (err e, t) f h = cc

  -- The same for a part that leaves the state alone.
  pub lift-eq-ok :
      (r : Result E A) (s : S) (f : A → Exec E S B) {b : B} {u : S}
      → continue (r, s) f ≡ (ok b, u)
      → (a : A) × (r ≡ ok a) × (f a s ≡ (ok b, u))
  lift-eq-ok (ok a) s f h = (a, refl, h)
  lift-eq-ok (err e) s f h = cc

module _ {E S B : Type 0} where
  pub raise_if-eq-ok :
      (c : Bool) (e : E) (s : S) (f : Unit → Exec E S B) {b : B} {u : S}
      → continue (raise_if c e s) f ≡ (ok b, u)
      → (c ≡ false) × (f tt s ≡ (ok b, u))
  raise_if-eq-ok true e s f h = cc
  raise_if-eq-ok false e s f h = (refl, h)

module _ {E S A B : Type 0} where
  pub or_raise-eq-ok :
      (o : Option A) (e : E) (s : S) (f : A → Exec E S B) {b : B} {u : S}
      → continue (or_raise o e s) f ≡ (ok b, u)
      → (a : A) × (o ≡ some a) × (f a s ≡ (ok b, u))
  or_raise-eq-ok none e s f h = cc
  or_raise-eq-ok (some a) e s f h = (a, refl, h)

module _ {E S A : Type 0} where
  -- A branch of a test, with the test's value.
  pub if-cases :
      (c : Bool) (m n : Exec E S A) (s : S) {r : Result E A × S}
      → (if c then m else n) s ≡ r
      → ((c ≡ true) × (m s ≡ r)) ⊎ ((c ≡ false) × (n s ≡ r))
  if-cases true m n s h = inl (refl, h)
  if-cases false m n s h = inr (refl, h)

module _ {E S A : Type 0} where
  -- Past two guards that raise.
  pub guards-eq-ok :
      (a b : Bool) (e e' : E) (s s' : S) (r : Result E A × S) {x : A} {t : S}
      → (if a then (err e, s) else if b then (err e', s') else r) ≡ (ok x, t)
      → (a ≡ false) × (b ≡ false) × (r ≡ (ok x, t))
  guards-eq-ok true b e e' s s' r h = cc
  guards-eq-ok false true e e' s s' r h = cc
  guards-eq-ok false false e e' s s' r h = (refl, refl, h)
