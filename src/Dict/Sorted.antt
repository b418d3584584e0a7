-- ===== src/Dict/Sorted.antt =====
-- `sorted` puts the entries of a dict in strict order of their keys.
use bfbt.Base.{ℕ, ◌<◌, ◌≡◌, false, [], ◌∷◌, arith}
use bfbt.Dict.{Dict, lookup, contains, IsUnique, place, sort}
use bfbt.Dict.Laws.{lookup-sort}

module _ {ℓ} {V : Type ℓ} where
  -- Every key is above `k`, and the keys rise.
  abbrev pub IsSortedFrom : ℕ → Dict V → Type 0
  IsSortedFrom k [] = Unit
  IsSortedFrom k (e ∷ d) = (k < e.0) × IsSortedFrom e.0 d

  abbrev pub IsSorted : Dict V → Type 0
  IsSorted [] = Unit
  IsSorted (e ∷ d) = IsSortedFrom e.0 d

  IsSortedFrom-place :
      (b k : ℕ) (v : V) (d : Dict V)
      → b < k
      → contains k d ≡ false
      → IsSortedFrom b d
      → IsSortedFrom b (place k v d)
  unfolding place lookup
  IsSortedFrom-place b k v [] l n h = (l, tt)
  IsSortedFrom-place b k v (e ∷ d) l n h = ground (arith, IsSortedFrom-place e.0 k v d)

  IsSorted-place :
      (k : ℕ) (v : V) (d : Dict V) → contains k d ≡ false → IsSorted d → IsSorted (place k v d)
  unfolding place lookup
  IsSorted-place k v [] n h = tt
  IsSorted-place k v (e ∷ d) n h = ground (arith, IsSortedFrom-place e.0 k v d)

  pub sort-IsSorted : (d : Dict V) → IsUnique d → IsSorted (sort d)
  unfolding sort
  sort-IsSorted [] u = tt
  sort-IsSorted (e ∷ d) u =
      IsSorted-place e.0 e.1 (sort d) (ground (arith, lookup-sort e.0 d u.1)) (sort-IsSorted d u.1)
