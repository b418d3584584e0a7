-- ===== src/Position/Saved.antt =====
-- A checkpoint restores the account it was taken of.
use bfbt.Base.{
  ℕ, ◌≤◌, ◌≡◌, refl, sym, ap, ◌∙◌, subst, inl, inr, true, false, [], ◌∷◌, ◌++◌, arith, ltb, leb,
  ◌==◌, Bool-cases, length, All,
}
use bfbt.Config.Sizing.{SizingMode}
use bfbt.Dict.{Dict, lookup, contains, insert, place, sort, IsUnique, SameItems}
use bfbt.Dict.Laws.{lookup-sort}
use bfbt.Dict.Unique.{IsUnique-sort, length-sort}
use bfbt.Dict.Sorted.{IsSorted, IsSortedFrom, sort-IsSorted}
use bfbt.Exec.{ok}
use bfbt.Float.{Float}
use bfbt.Position.State.{
  Position, Account, PositionCheckpoint, Engine, is_empty, checkpoint, restored, is_sound,
  restore_rows, check_rolling, restore,
}

module _ {V : Type 0} where
  All-place :
      (P : ℕ × V → Type 0) (k : ℕ) (v : V) (d : Dict V) → P (k, v) → All P d → All P (place k v d)
  unfolding place
  All-place P k v [] h hs = (h, tt)
  All-place P k v (x ∷ d) h (p, ps) = elim (Bool-cases (leb k x.0)) [
    | inl e ↦ rw (All, e) ((h, (p, ps)))
    | inr e ↦ rw (All, e) ((p, All-place P k v d h ps))
  ]

  All-sort : (P : ℕ × V → Type 0) (d : Dict V) → All P d → All P (sort d)
  unfolding sort
  All-sort P [] h = tt
  All-sort P (x ∷ d) (h, hs) = All-place P x.0 x.1 (sort d) h (All-sort P d hs)

  IsSortedFrom-IsSorted : (k : ℕ) (d : Dict V) → IsSortedFrom k d → IsSorted d
  IsSortedFrom-IsSorted k [] h = tt
  IsSortedFrom-IsSorted k (x ∷ d) h = h.1

  place-first : (x : ℕ × V) (d : Dict V) → IsSortedFrom x.0 d → place x.0 x.1 d ≡ x ∷ d
  unfolding place
  place-first x [] h = refl
  place-first x (y ∷ d) h = let first : leb x.0 y.0 ≡ true = ground (arith, h.0) in rw (first) refl

  sort-sorted : (d : Dict V) → IsSorted d → sort d ≡ d
  unfolding sort
  sort-sorted [] h = refl
  sort-sorted (x ∷ d) h = rw (sort-sorted d (IsSortedFrom-IsSorted x.0 d h)) (place-first x d h)

  -- `d ++ (x ∷ [])`, the way `insert` writes a new key.
  insert-absent :
      (k : ℕ) (v : V) (d : Dict V) → contains k d ≡ false → insert k v d ≡ d ++ ((k, v) ∷ [])
  unfolding insert lookup
  insert-absent k v [] h = refl
  insert-absent k v (x ∷ d) h = elim (Bool-cases (k == x.0)) [
    | inl e ↦ absurd (ground (arith, e, h))
    | inr e ↦ rw (e, insert-absent k v d (ground (arith, e, h))) refl
  ]

  append-assoc_one :
      (d : Dict V) (x : ℕ × V) (rows : Dict V) → (d ++ (x ∷ [])) ++ rows ≡ d ++ (x ∷ rows)
  append-assoc_one [] x rows = refl
  append-assoc_one (y ∷ d) x rows = ap (λ z. y ∷ z) (append-assoc_one d x rows)

  other_key :
      (k : ℕ) (d : Dict V) (x : ℕ × V) (rows : Dict V)
      → contains k (d ++ (x ∷ rows)) ≡ false
      → (x.0 == k) ≡ false
  unfolding lookup
  other_key k [] x rows h = ground (arith, h)
  other_key k (y ∷ d) x rows h = other_key k d x rows (ground (arith, h))

  absent_of_unique :
      (d : Dict V) (x : ℕ × V) (rows : Dict V) → IsUnique (d ++ (x ∷ rows)) → contains x.0 d ≡ false
  unfolding lookup
  absent_of_unique [] x rows u = refl
  absent_of_unique (y ∷ d) x rows u =
      ground (arith, other_key y.0 d x rows u.0, absent_of_unique d x rows u.1)

  is_empty-sort : (d : Dict V) → is_empty (sort d) ≡ is_empty d
  is_empty-sort d = ground (arith, length-sort d, is_empty-length d, is_empty-length (sort d))
    where
      is_empty-length : (d : Dict V) → is_empty d ≡ (length d == 0)
      is_empty-length [] = refl
      is_empty-length (x ∷ d) = ground arith

module _ {F : Type 0} ⦃f : Float F⦄ where
  restore_rows-append :
      (d rows : Dict (Position F))
      → IsUnique (d ++ rows)
      → All (λ x. is_sound x.1 ≡ true) rows
      → restore_rows d rows ≡ ok (d ++ rows)
  unfolding restore_rows
  restore_rows-append d [] u h = ap ok (append_nil d)
    where
      append_nil : (d : Dict (Position F)) → d ≡ d ++ []
      append_nil [] = refl
      append_nil (x ∷ d) = ap (λ z. x ∷ z) (append_nil d)
  restore_rows-append d (x ∷ rows) u (h, hs) =
      let absent = absent_of_unique d x rows u in
      let same = append-assoc_one d x rows in
      rw (insert-absent x.0 x.1 d absent, absent, h)
        (subst (λ z. restore_rows (d ++ (x ∷ [])) rows ≡ ok z) same
          (restore_rows-append (d ++ (x ∷ [])) rows (subst IsUnique (sym same) u) hs))

  check_rolling-sort :
      (mode : SizingMode) (c : PositionCheckpoint F) (d : Dict (Position F))
      → check_rolling mode c (sort d) ≡ check_rolling mode c d
  unfolding check_rolling
  check_rolling-sort mode c d = rw (is_empty-sort d) refl

  -- For an account of unique and sound positions within the budget, whose rolling state agrees with
  -- them, `_restore` of its checkpoint returns the same account but for the order of its positions:
  -- every lookup of a position answers alike, the positions are in the order of their symbols, and
  -- the cash, the clock, the sequence and the rolling state are the account's own. The checkpoint
  -- of what is restored is the same checkpoint.
  pub restore-checkpoint :
      (e : Engine F) (s : Account F)
      → IsUnique s.positions
      → All (λ x. is_sound x.1 ≡ true) s.positions
      → length s.positions ≤ e.max_position_state_rows
      → check_rolling e.sizing.mode (checkpoint s) s.positions ≡ ok tt
      → (d : Dict (Position F)) × (restore e (checkpoint s) ≡ ok (record s { positions = d }))
        × SameItems d s.positions
        × IsSorted d
        × (checkpoint (record s { positions = d }) ≡ checkpoint s)
  unfolding restore checkpoint restored
  restore-checkpoint e s u h b r =
      let d = sort s.positions in
      let rows =
        restore_rows-append [] d (IsUnique-sort s.positions u)
          (All-sort (λ x. is_sound x.1 ≡ true) s.positions h) in
      let rolling = check_rolling-sort e.sizing.mode (checkpoint s) s.positions ∙ r in
      let room : ltb e.max_position_state_rows (length d) ≡ false =
        ground (arith, length-sort s.positions, b) in
      (
        d,
        rw (room, rows, rolling) refl,
        λ k. lookup-sort k s.positions u,
        sort-IsSorted s.positions u,
        rw (sort-sorted d (sort-IsSorted s.positions u)) refl,
      )
