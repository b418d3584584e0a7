-- ===== src/Exec/Keeps.antt =====
-- Methods that keep a property of the state, whether they return or raise.
use bfbt.Base.{◌≡◌, refl, Bool, true, false, Option, none, some}
use bfbt.Exec.{Result, ok, err, Exec, continue, raise_if, or_raise}

module _ {E S : Type 0} where
  -- The state after the call has the property if the state before it has.
  abbrev pub Keeps : {A : Type 0} → (S → Type 0) → Exec E S A → Type 0
  Keeps P m = (s : S) → P s → P (m s).1

module _ {E S A B : Type 0} (P : S → Type 0) where
  pub continue-Keeps :
      (r : Result E A × S) (f : A → Exec E S B)
      → P r.1
      → ((a : A) → Keeps P (f a))
      → P (continue r f).1
  continue-Keeps (ok a, s) f h k = k a s h
  continue-Keeps (err e, s) f h k = h

module _ {E S B : Type 0} (P : S → Type 0) where
  pub raise_if-Keeps :
      (c : Bool) (e : E) (s : S) (f : Unit → Exec E S B)
      → P s
      → (c ≡ false → P (f tt s).1)
      → P (continue (raise_if c e s) f).1
  raise_if-Keeps true e s f h k = h
  raise_if-Keeps false e s f h k = k refl

module _ {E S A B : Type 0} (P : S → Type 0) where
  pub lift-Keeps :
      (r : Result E A) (s : S) (f : A → Exec E S B)
      → P s
      → ((a : A) → (r ≡ ok a) → P (f a s).1)
      → P (continue (r, s) f).1
  lift-Keeps (ok a) s f h k = k a refl
  lift-Keeps (err e) s f h k = h

  pub or_raise-Keeps :
      (o : Option A) (e : E) (s : S) (f : A → Exec E S B)
      → P s
      → ((a : A) → (o ≡ some a) → P (f a s).1)
      → P (continue (or_raise o e s) f).1
  or_raise-Keeps none e s f h k = h
  or_raise-Keeps (some a) e s f h k = k a refl

pub raise_if-same : {E S : Type 0} (c : Bool) (e : E) (s : S) → (raise_if c e s).1 ≡ s
raise_if-same true e s = refl
raise_if-same false e s = refl
