-- ===== src/Exec.antt =====
-- Methods that mutate an object and may raise: what was written before a raise stays written, so
-- the state comes back beside the error too.
pub mod Laws
pub mod Keeps
pub mod Post
use bfbt.Base.{Bool, true, false, Option, none, some}

pub data Result (E A : Type 0) : Type 0 where
  ok : A → Result E A
  err : E → Result E A

abbrev pub Exec : Type 0 → Type 0 → Type 0 → Type 0
Exec E S A = S → Result E A × S

module _ {E S A : Type 0} where
  abbrev pub pure : A → Exec E S A
  pure a s = (ok a, s)

  abbrev pub raise : E → Exec E S A
  raise e s = (err e, s)

  abbrev pub lift : Result E A → Exec E S A
  lift r s = (r, s)

  abbrev pub gets : (S → A) → Exec E S A
  gets f s = (ok (f s), s)

  abbrev pub or_raise : Option A → E → Exec E S A
  or_raise none e s = (err e, s)
  or_raise (some a) e s = (ok a, s)

module _ {E S A B : Type 0} where
  abbrev pub continue : Result E A × S → (A → Exec E S B) → Result E B × S
  continue (ok a, s) f = f a s
  continue (err e, s) f = (err e, s)

  infixl 5 ◌>>=◌ ◌>>◌
  abbrev pub ◌>>=◌ : Exec E S A → (A → Exec E S B) → Exec E S B
  ◌>>=◌ m f s = continue (m s) f

  abbrev pub ◌>>◌ : Exec E S A → Exec E S B → Exec E S B
  ◌>>◌ m n s = continue (m s) (λ _. n)

module _ {E S : Type 0} where
  -- `if c: raise e`
  abbrev pub raise_if : Bool → E → Exec E S Unit
  raise_if true e s = (err e, s)
  raise_if false e s = (ok tt, s)

  abbrev pub modify : (S → S) → Exec E S Unit
  modify f s = (ok tt, f s)
