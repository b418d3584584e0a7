-- ===== src/Dict/Count.antt =====
-- Counting keys: a dict whose keys lie in another one is no longer than that one.
use bfbt.Base.{ℕ, ◌+◌, ◌≤◌, ◌≡◌, refl, true, false, not, [], ◌∷◌, ◌⊎◌, arith, ◌==◌, length}
use bfbt.Dict.{Dict, lookup, contains, filter_items, erase, IsUnique, union_size}
use bfbt.Dict.Laws.{lookup-filter_items}
use bfbt.Dict.Unique.{IsUnique-filter_items}

module _ {ℓ} {V : Type ℓ} where
  length-erase_absent : (k : ℕ) (d : Dict V) → contains k d ≡ false → length (erase k d) ≡ length d
  unfolding lookup filter_items
  length-erase_absent k [] h = refl
  length-erase_absent k (e ∷ d) h = ground (arith, length-erase_absent k d)

  pub length-erase :
      (k : ℕ) (d : Dict V) → IsUnique d → contains k d ≡ true → length (erase k d) + 1 ≡ length d
  unfolding lookup filter_items
  length-erase k [] u h = cc
  length-erase k (e ∷ d) u h = ground (arith, length-erase k d u.1, length-erase_absent k d)

module _ {ℓ κ} {V : Type ℓ} {W : Type κ} where
  pub length-le_of_keys :
      (a : Dict V) (b : Dict W)
      → IsUnique a
      → IsUnique b
      → ((k : ℕ) → contains k a ≡ true → contains k b ≡ true)
      → length a ≤ length b
  unfolding lookup
  length-le_of_keys [] b u v h = omega arith
  length-le_of_keys (e ∷ a) b u v h =
      let rest =
        length-le_of_keys a (erase e.0 b) u.1 (IsUnique-filter_items (λ j _. not (e.0 == j)) b v)
          (λ k c. ground (arith, h k, lookup-filter_items (λ j _. not (e.0 == j)) k b v)) in
      omega (arith, rest, length-erase e.0 b v (h e.0 (ground arith)))

module _ {V W V' W' : Type 0} where
  -- Keys in the union of two dicts are no more than the union's size.
  pub union_size-le :
      (a : Dict V) (b : Dict W) (a' : Dict V') (b' : Dict W')
      → IsUnique a
      → IsUnique b
      → IsUnique a'
      → IsUnique b'
      → ((k : ℕ) → contains k a' ≡ contains k a)
      → ((k : ℕ) → contains k b' ≡ true → (contains k a ≡ true) ⊎ (contains k b ≡ true))
      → union_size a' b' ≤ union_size a b
  unfolding union_size
  union_size-le a b a' b' ua ub ua' ub' same incl =
      let outside = filter_items (λ k _. not (contains k a)) b in
      let outside' = filter_items (λ k _. not (contains k a')) b' in
      omega (
        arith,
        length-le_of_keys a' a ua' ua (λ k c. ground (arith, same k)),
        length-le_of_keys outside' outside
            (IsUnique-filter_items (λ k _. not (contains k a')) b' ub')
            (IsUnique-filter_items (λ k _. not (contains k a)) b ub)
            (λ k c. ground (
              arith,
              same k,
              incl k,
              lookup-filter_items (λ k _. not (contains k a')) k b' ub',
              lookup-filter_items (λ k _. not (contains k a)) k b ub,
            )),
      )
