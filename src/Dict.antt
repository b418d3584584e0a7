-- ===== src/Dict.antt =====
-- Python's `dict` in insertion order. Keys (symbols, identifiers) are only compared for equality
-- and order, so they are naturals. A dict has no key twice: `IsUnique`, kept by each operation.
pub mod Laws
pub mod Unique
pub mod Sorted
pub mod Count
use bfbt.Base.{
  ℕ, ◌+◌, ◌≡◌, Bool, true, false, not, Option, none, some, List, [], ◌∷◌, ◌==◌, leb, is_some,
  filter, length, if◌then◌else◌,
}

abbrev pub Dict {ℓ} : Type ℓ → Type ℓ
Dict V = List (ℕ × V)

module _ {ℓ} {V : Type ℓ} where
  -- `d.get(k)`
  unfoldable pub lookup : ℕ → Dict V → Option V
  lookup k [] = none
  lookup k (e ∷ d) = if k == e.0 then some e.1 else lookup k d

  -- `k in d`
  abbrev pub contains : ℕ → Dict V → Bool
  contains k d = is_some (lookup k d)

  -- `d[k] = v`: in place, or at the end.
  unfoldable pub insert : ℕ → V → Dict V → Dict V
  insert k v [] = (k, v) ∷ []
  insert k v (e ∷ d) = if k == e.0 then (k, v) ∷ d else e ∷ insert k v d

  -- `{k: v for k, v in d.items() if p(k, v)}`
  unfoldable pub filter_items : (ℕ → V → Bool) → Dict V → Dict V
  filter_items p [] = []
  filter_items p (e ∷ d) = if p e.0 e.1 then e ∷ filter_items p d else filter_items p d

  -- `d.pop(k, None)`
  abbrev pub erase : ℕ → Dict V → Dict V
  erase k = filter_items (λ j _. not (k == j))

  unfoldable pub all_items : (ℕ → V → Bool) → Dict V → Bool
  all_items p [] = true
  all_items p (e ∷ d) = if p e.0 e.1 then all_items p d else false

  abbrev pub IsUnique : Dict V → Type 0
  IsUnique [] = Unit
  IsUnique (e ∷ d) = (contains e.0 d ≡ false) × IsUnique d

  -- `sorted(d.items())`: by key, since no key stands twice.
  unfoldable pub place : ℕ → V → Dict V → Dict V
  place k v [] = (k, v) ∷ []
  place k v (e ∷ d) = if leb k e.0 then (k, v) ∷ e ∷ d else e ∷ place k v d

  unfoldable pub sort : Dict V → Dict V
  unfolding place
  sort [] = []
  sort (e ∷ d) = place e.0 e.1 (sort d)

module _ {ℓ} {V : Type ℓ} where
  -- What a filter leaves of one entry.
  abbrev pub keep_if : (V → Bool) → Option V → Option V
  keep_if p none = none
  keep_if p (some v) = if p v then some v else none

-- `len(set(a) | set(b))`, of the keys of two dicts.
unfoldable pub union_size {ℓ κ} : {V : Type ℓ} {W : Type κ} → Dict V → Dict W → ℕ
union_size a b = length a + length (filter_items (λ k _. not (contains k a)) b)

-- Two dicts that answer every `get` alike.
abbrev pub SameItems {ℓ} : {V : Type ℓ} → Dict V → Dict V → Type ℓ
SameItems a b = (k : ℕ) → lookup k a ≡ lookup k b
