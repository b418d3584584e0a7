-- ===== src/Risk/Sync.antt =====
-- What `_sync_positions`, `_position_rows` and `_update_extremes` do to the entries of a dict.
use bfbt.Base.{ℕ, ◌≡◌, refl, ap, Option, none, some, List, [], ◌∷◌, ◌⊎◌, inl, inr, arith, subst}
use bfbt.Dict.{Dict, lookup, contains, insert, filter_items, IsUnique}
use bfbt.Dict.Laws.{lookup-insert, lookup-filter_items}
use bfbt.Dict.Unique.{IsUnique-insert, IsUnique-filter_items}
use bfbt.Exec.{ok}
use bfbt.Exec.Laws.{ok-injective}
use bfbt.Float.{Float}
use bfbt.Risk.State.{RiskPosition, PositionRow, PositionInput, BarRow, Frame}
use bfbt.Risk.Input.{collect_positions, position_rows, to_row}
use bfbt.Risk.Book.{synced, sync_rows, sync_positions, widen, update_extremes}

module _ {F : Type 0} where
  -- A symbol that has no row keeps its position, one that has a row takes its price.
  abbrev pub after_sync : Option (PositionRow F) → Option (RiskPosition F) → Option (RiskPosition F)
  after_sync none p = p
  after_sync (some row) p = some (synced row p)

  IsUnique-sync_rows :
      (rows : Dict (PositionRow F)) (d : Dict (RiskPosition F))
      → IsUnique d
      → IsUnique (sync_rows rows d)
  unfolding sync_rows
  IsUnique-sync_rows [] d u = u
  IsUnique-sync_rows (e ∷ rows) d u =
      let p = synced e.1 (lookup e.0 d) in
      IsUnique-sync_rows rows (insert e.0 p d) (IsUnique-insert e.0 p d u)

  lookup-sync_rows :
      (k : ℕ) (rows : Dict (PositionRow F)) (d : Dict (RiskPosition F))
      → IsUnique rows
      → lookup k (sync_rows rows d) ≡ after_sync (lookup k rows) (lookup k d)
  unfolding sync_rows lookup
  lookup-sync_rows k [] d u = refl
  lookup-sync_rows k (e ∷ rows) d u =
      let p = synced e.1 (lookup e.0 d) in
      ground (arith, lookup-sync_rows k rows (insert e.0 p d) u.1, lookup-insert k e.0 p d)

  pub IsUnique-sync_positions :
      (rows : Dict (PositionRow F)) (d : Dict (RiskPosition F))
      → IsUnique d
      → IsUnique (sync_positions rows d)
  unfolding sync_positions
  IsUnique-sync_positions rows d u =
      IsUnique-sync_rows rows (filter_items (λ k _. contains k rows) d)
        (IsUnique-filter_items (λ k _. contains k rows) d u)

  -- After the call a symbol has a position exactly if it has a row, and which one.
  pub lookup-sync_positions :
      (k : ℕ) (rows : Dict (PositionRow F)) (d : Dict (RiskPosition F))
      → IsUnique rows
      → IsUnique d
      → lookup k (sync_positions rows d)
        ≡ elim (lookup k rows) [ none ↦ none | some row ↦ some (synced row (lookup k d)) ]
  unfolding sync_positions
  lookup-sync_positions k rows d u v =
      let kept = filter_items (λ k _. contains k rows) d in
      ground
        (arith, lookup-sync_rows k rows kept u, lookup-filter_items (λ k _. contains k rows) k d v)

module _ {F : Type 0} ⦃f : Float F⦄ where
  collect_positions-cases :
      (seen : Dict (PositionRow F)) (p : PositionInput F) (ps : List (PositionInput F))
      {rows : Dict (PositionRow F)}
      → collect_positions seen (p ∷ ps) ≡ ok rows
      → (collect_positions seen ps ≡ ok rows)
        ⊎ (collect_positions (insert p.symbol (to_row p) seen) ps ≡ ok rows)
  unfolding collect_positions
  collect_positions-cases seen p ps h = ground arith

  collect_positions-IsUnique :
      (seen : Dict (PositionRow F)) (ps : List (PositionInput F)) {rows : Dict (PositionRow F)}
      → IsUnique seen
      → collect_positions seen ps ≡ ok rows
      → IsUnique rows
  unfolding collect_positions
  collect_positions-IsUnique seen [] {rows} u h = subst IsUnique (ok-injective h) u
  collect_positions-IsUnique seen (p ∷ ps) u h = elim (collect_positions-cases seen p ps h) [
    | inl skipped ↦ collect_positions-IsUnique seen ps u skipped
    | inr taken ↦
        collect_positions-IsUnique (insert p.symbol (to_row p) seen) ps
          (IsUnique-insert p.symbol (to_row p) seen u) taken
  ]

  pub position_rows-IsUnique :
      (frame : Frame (PositionInput F)) {rows : Dict (PositionRow F)}
      → position_rows frame ≡ ok rows
      → IsUnique rows
  unfolding position_rows
  position_rows-IsUnique frame h = collect_positions-IsUnique [] frame.rows tt (ground arith)

  -- A position after `_update_extremes`, where each has a bar.
  abbrev pub after_widen : Option (BarRow F) → Option (RiskPosition F) → Option (RiskPosition F)
  after_widen none p = none
  after_widen (some bar) none = none
  after_widen (some bar) (some p) = some (widen bar p)

  lookup-update_extremes_pair :
      (bars : Dict (BarRow F)) (d : Dict (RiskPosition F)) (k : ℕ)
      → (update_extremes bars d).0 ≡ ok tt
      → lookup k (update_extremes bars d).1 ≡ after_widen (lookup k bars) (lookup k d)
  unfolding update_extremes lookup
  lookup-update_extremes_pair bars [] k h = ground arith
  lookup-update_extremes_pair bars (e ∷ d) k h =
      ground (arith, lookup-update_extremes_pair bars d k)

  pub lookup-update_extremes :
      (bars : Dict (BarRow F)) (d : Dict (RiskPosition F)) (k : ℕ) {d' : Dict (RiskPosition F)}
      → update_extremes bars d ≡ (ok tt, d')
      → lookup k d' ≡ after_widen (lookup k bars) (lookup k d)
  lookup-update_extremes bars d k h =
      rw (← ap (λ r. r.1) h) (lookup-update_extremes_pair bars d k (ap (λ r. r.0) h))

  IsUnique-update_extremes_pair :
      (bars : Dict (BarRow F)) (d : Dict (RiskPosition F))
      → (update_extremes bars d).0 ≡ ok tt
      → IsUnique d
      → IsUnique (update_extremes bars d).1
  unfolding update_extremes
  IsUnique-update_extremes_pair bars [] h u = tt
  IsUnique-update_extremes_pair bars (e ∷ d) h u =
      ground (arith, IsUnique-update_extremes_pair bars d, lookup-update_extremes_pair bars d e.0)

  pub IsUnique-update_extremes :
      (bars : Dict (BarRow F)) (d : Dict (RiskPosition F)) {d' : Dict (RiskPosition F)}
      → update_extremes bars d ≡ (ok tt, d')
      → IsUnique d
      → IsUnique d'
  IsUnique-update_extremes bars d h u =
      subst IsUnique (ap (λ r. r.1) h) (IsUnique-update_extremes_pair bars d (ap (λ r. r.0) h) u)

  contains-update_extremes_pair :
      (bars : Dict (BarRow F)) (d : Dict (RiskPosition F)) (k : ℕ)
      → (update_extremes bars d).0 ≡ ok tt
      → contains k (update_extremes bars d).1 ≡ contains k d
  unfolding update_extremes lookup
  contains-update_extremes_pair bars [] k h = refl
  contains-update_extremes_pair bars (e ∷ d) k h =
      ground (arith, contains-update_extremes_pair bars d k)

  pub contains-update_extremes :
      (bars : Dict (BarRow F)) (d : Dict (RiskPosition F)) (k : ℕ) {d' : Dict (RiskPosition F)}
      → update_extremes bars d ≡ (ok tt, d')
      → contains k d' ≡ contains k d
  contains-update_extremes bars d k h =
      rw (← ap (λ r. r.1) h) (contains-update_extremes_pair bars d k (ap (λ r. r.0) h))

  -- Widening changes only the extreme.
  pub widen-trigger_count :
      (bar : BarRow F) (p : RiskPosition F) → (widen bar p).trigger_count ≡ p.trigger_count
  unfolding widen
  widen-trigger_count bar p = refl
