-- ===== src/Dict/Laws.antt =====
-- What `get` returns after each operation of a dict.
use bfbt.Base.{
  ◌⊎◌, ℕ, ◌≡◌, refl, Bool, true, false, none, some, [], ◌∷◌, arith, ◌==◌, if◌then◌else◌,
}
use bfbt.Dict.{
  Dict, lookup, contains, insert, filter_items, all_items, IsUnique, place, sort, keep_if,
}

module _ {ℓ} {V : Type ℓ} where
  pub lookup-insert :
      (j k : ℕ) (v : V) (d : Dict V)
      → lookup j (insert k v d) ≡ (if j == k then some v else lookup j d)
  unfolding lookup insert
  lookup-insert j k v [] = refl
  lookup-insert j k v (e ∷ d) = ground (arith, lookup-insert j k v d)

  pub lookup-eq-none : (j : ℕ) (d : Dict V) → contains j d ≡ false → lookup j d ≡ none
  lookup-eq-none j d h = ground arith

  pub lookup-filter_items :
      (p : ℕ → V → Bool) (j : ℕ) (d : Dict V)
      → IsUnique d
      → lookup j (filter_items p d) ≡ keep_if (p j) (lookup j d)
  unfolding lookup filter_items
  lookup-filter_items p j [] u = refl
  lookup-filter_items p j (e ∷ d) u = ground (arith, lookup-filter_items p j d u.1)

  pub lookup-place :
      (j k : ℕ) (v : V) (d : Dict V)
      → contains k d ≡ false
      → lookup j (place k v d) ≡ (if j == k then some v else lookup j d)
  unfolding lookup place
  lookup-place j k v [] u = refl
  lookup-place j k v (e ∷ d) u = ground (arith, lookup-place j k v d)

  pub lookup-sort : (j : ℕ) (d : Dict V) → IsUnique d → lookup j (sort d) ≡ lookup j d
  unfolding sort lookup
  lookup-sort j [] u = refl
  lookup-sort j (e ∷ d) u =
      ground (arith, lookup-sort e.0 d u.1, lookup-sort j d u.1, lookup-place j e.0 e.1 (sort d))

  pub all_items-lookup :
      (p : ℕ → V → Bool) (d : Dict V) (j : ℕ) (v : V)
      → all_items p d ≡ true
      → lookup j d ≡ some v
      → p j v ≡ true
  unfolding all_items lookup
  all_items-lookup p [] j v h e = cc
  all_items-lookup p (x ∷ d) j v h e = ground (arith, all_items-lookup p d j v)

  -- What is found after a write was written now or found before.
  pub lookup-insert_cases :
      (j k : ℕ) (v : V) (d : Dict V) {x : V}
      → lookup j (insert k v d) ≡ some x
      → ((j ≡ k) × (x ≡ v)) ⊎ (lookup j d ≡ some x)
  lookup-insert_cases j k v d h = ground (arith, lookup-insert j k v d)

  -- What a filter leaves was there.
  pub lookup-filter_items-some :
      (p : ℕ → V → Bool) (j : ℕ) (d : Dict V) {x : V}
      → IsUnique d
      → lookup j (filter_items p d) ≡ some x
      → lookup j d ≡ some x
  lookup-filter_items-some p j d u h = ground (arith, lookup-filter_items p j d u)
