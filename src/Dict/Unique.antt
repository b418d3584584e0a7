-- ===== src/Dict/Unique.antt =====
-- No operation of a dict makes a key stand twice, and how each changes the number of entries.
use bfbt.Base.{ℕ, ◌+◌, ◌≤◌, ◌≡◌, refl, Bool, false, [], ◌∷◌, arith, if◌then◌else◌, length}
use bfbt.Dict.{Dict, lookup, contains, insert, filter_items, IsUnique, place, sort}
use bfbt.Dict.Laws.{lookup-insert, lookup-filter_items, lookup-place, lookup-sort}

module _ {ℓ} {V : Type ℓ} where
  pub IsUnique-insert : (k : ℕ) (v : V) (d : Dict V) → IsUnique d → IsUnique (insert k v d)
  unfolding insert lookup
  IsUnique-insert k v [] u = (refl, tt)
  IsUnique-insert k v (e ∷ d) u = ground (arith, IsUnique-insert k v d u.1, lookup-insert e.0 k v d)

  pub IsUnique-filter_items :
      (p : ℕ → V → Bool) (d : Dict V) → IsUnique d → IsUnique (filter_items p d)
  unfolding filter_items
  IsUnique-filter_items p [] u = tt
  IsUnique-filter_items p (e ∷ d) u =
      ground (arith, IsUnique-filter_items p d u.1, lookup-filter_items p e.0 d u.1)

  pub IsUnique-place :
      (k : ℕ) (v : V) (d : Dict V) → IsUnique d → contains k d ≡ false → IsUnique (place k v d)
  unfolding place lookup
  IsUnique-place k v [] u n = (refl, tt)
  IsUnique-place k v (e ∷ d) u n = ground (arith, IsUnique-place k v d u.1, lookup-place e.0 k v d)

  pub IsUnique-sort : (d : Dict V) → IsUnique d → IsUnique (sort d)
  unfolding sort
  IsUnique-sort [] u = tt
  IsUnique-sort (e ∷ d) u =
      ground (arith, IsUnique-place e.0 e.1 (sort d), IsUnique-sort d u.1, lookup-sort e.0 d u.1)

  pub length-place : (k : ℕ) (v : V) (d : Dict V) → length (place k v d) ≡ length d + 1
  unfolding place
  length-place k v [] = omega arith
  length-place k v (e ∷ d) = ground (arith, length-place k v d)

  pub length-sort : (d : Dict V) → length (sort d) ≡ length d
  unfolding sort
  length-sort [] = refl
  length-sort (e ∷ d) = ground (arith, length-place e.0 e.1 (sort d), length-sort d)

  pub length-insert :
      (k : ℕ) (v : V) (d : Dict V)
      → length (insert k v d) ≡ (if contains k d then length d else length d + 1)
  unfolding insert lookup
  length-insert k v [] = refl
  length-insert k v (e ∷ d) = ground (arith, length-insert k v d)

  pub length-filter_items : (p : ℕ → V → Bool) (d : Dict V) → length (filter_items p d) ≤ length d
  unfolding filter_items
  length-filter_items p [] = omega arith
  length-filter_items p (e ∷ d) = ground (arith, length-filter_items p d)
