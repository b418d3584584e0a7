-- ===== src/Position/Reach.antt =====
-- The states that an engine reaches, by calls that return and by calls that raise.
use bfbt.Base.{
  ℕ, ◌≡◌, refl, sym, subst, inl, inr, Bool, not, ◌&&◌, Option, none, some, List, [], ◌∷◌, arith,
  ltb, leb, is_some, length, any, sort_by, All,
}
use bfbt.Dict.{Dict, contains, insert, IsUnique}
use bfbt.Dict.Unique.{IsUnique-insert}
use bfbt.Exec.{ok}
use bfbt.Exec.Keeps.{Keeps, continue-Keeps, raise_if-Keeps, lift-Keeps, raise_if-same}
use bfbt.Exec.Laws.{ok-injective, Result-cases}
use bfbt.Float.{Float, FloatMath}
use bfbt.Risk.State.{Frame}
use bfbt.Position.State.{
  PositionError, Position, Account, PositionCheckpoint, Engine, is_rolling, restored, initial,
  is_sound, restore_rows, check_rolling, restore, create_engine,
}
use bfbt.Position.Value.{price_of, validate_marks, account_value}
use bfbt.Position.Legs.{Selection}
use bfbt.Position.Execute.{is_held, apply_cashflow, execute}
use bfbt.Position.Selections.{
  Totals, SelectionFrame, is_single, is_stale, selection_rows, possible_symbols, has_zero_positions,
  check_batch,
}
use bfbt.Position.Batch.{
  DeltaRow, no_totals, add_totals, process, or_nought, apply_rows, apply_external_deltas,
}
use bfbt.Position.Kept.{All-insert, IsHeld, IsKept, execute-IsKept}
use bfbt.Position.Preserve.{process_batch-IsKept}

module _ {F : Type 0} ⦃f : Float F⦄ ⦃m : FloatMath F⦄ (e : Engine F) where
  -- One call of a method that changes the account, whatever comes of it.
  pub data Step : Account F → Account F → Type 0 where
    processed :
        (time : ℕ) (aware : Bool) (marks : Dict F) (frame : SelectionFrame F) {s : Account F}
        → Step s (process e time aware marks frame s).1
    delta_applied :
        (frame : Frame (DeltaRow F)) (time : ℕ) (marks : Dict F) {s : Account F}
        → Step s (apply_external_deltas e frame time marks s).1
    cash_applied :
        (amount : F) (symbol : Option ℕ) {s : Account F}
        → Step s (apply_cashflow e amount symbol s).1

  pub data Reachable : Account F → Type 0 where
    opened :
        (saved : Option (PositionCheckpoint F)) {s : Account F}
        → create_engine e saved ≡ ok s
        → Reachable s
    after : {s t : Account F} → Reachable s → Step s t → Reachable t

  pub check_batch-same :
      (marks : Dict F) (rows : List (Selection F)) (s : Account F)
      → (check_batch e marks rows s).1 ≡ s
  unfolding check_batch
  check_batch-same marks rows s =
      raise_if-Keeps (λ t. t ≡ s) (is_single e.holding.mode && ltb 1 (length rows))
        PositionError.too_many_signals s _ refl
        (λ _.
          raise_if-Keeps (λ t. t ≡ s) (ltb e.max_pending_instructions (length rows))
            PositionError.too_many_pending s _ refl
            (λ _.
              raise_if-Keeps (λ t. t ≡ s) (any (λ r. not (contains r.symbol marks)) rows)
                PositionError.missing_mark s _ refl
                (λ _.
                  raise_if-Keeps (λ t. t ≡ s)
                    (ltb e.max_position_state_rows (possible_symbols e s rows))
                    PositionError.too_many_rows s _ refl
                    (λ _.
                      raise_if-same (has_zero_positions e s rows) PositionError.zero_positions s))))

  process-IsKept :
      (time : ℕ) (aware : Bool) (marks : Dict F) (frame : SelectionFrame F)
      → Keeps IsKept (process e time aware marks frame)
  unfolding process
  process-IsKept time aware marks frame s h =
      raise_if-Keeps IsKept (not aware) PositionError.naive_time s _ h (λ _.
        raise_if-Keeps IsKept (is_stale s.last_decision_time time) PositionError.stale_time s _ h
          (λ _. lift-Keeps IsKept (validate_marks e marks s) s _ h (λ known _.
            lift-Keeps IsKept (selection_rows e frame time) s _ h (λ rows _.
              continue-Keeps IsKept (check_batch e known rows s) _
                (subst IsKept (sym (check_batch-same known rows s)) h)
                (λ u t k. process_batch-IsKept e time known rows t k)))))

  apply_rows-IsKept :
      (marks : Dict F) (totals : Totals F) (rows : List (DeltaRow F))
      → Keeps IsKept (apply_rows e marks totals rows)
  unfolding apply_rows
  apply_rows-IsKept marks totals [] s h = h
  apply_rows-IsKept marks totals (row ∷ rows) s h =
      let delta = or_nought row.constrained_delta_notional in
      raise_if-Keeps IsKept (not (contains row.symbol marks)) PositionError.missing_mark s _ h (λ _.
        continue-Keeps IsKept (execute e row.symbol delta (price_of marks row.symbol) s) _
          (execute-IsKept e row.symbol delta (price_of marks row.symbol) s h)
          (λ z t k.
            continue-Keeps IsKept (apply_rows e marks (add_totals totals delta z.0 z.1) rows t) _
              (apply_rows-IsKept marks (add_totals totals delta z.0 z.1) rows t k) (λ y u l. l)))

  apply_external_deltas-IsKept :
      (frame : Frame (DeltaRow F)) (time : ℕ) (marks : Dict F)
      → Keeps IsKept (apply_external_deltas e frame time marks)
  unfolding apply_external_deltas
  apply_external_deltas-IsKept frame time marks s h =
      lift-Keeps IsKept (validate_marks e marks s) s _ h (λ known _.
        raise_if-Keeps IsKept (not frame.has_columns) PositionError.delta_columns s _ h (λ _.
          raise_if-Keeps IsKept (ltb e.max_pending_instructions (length frame.rows))
            PositionError.too_many_pending s _ h
            (λ _.
              continue-Keeps IsKept
                (apply_rows e known no_totals (sort_by (λ a b. leb a.symbol b.symbol) frame.rows) s)
                _
                (apply_rows-IsKept known no_totals
                  (sort_by (λ a b. leb a.symbol b.symbol) frame.rows) s h)
                (λ z t k.
                  lift-Keeps IsKept (account_value e time known z.1.turnover z.1.fee z.1.slippage t)
                    t _ k (λ v _. k)))))

  apply_cashflow-IsKept :
      (amount : F) (symbol : Option ℕ) → Keeps IsKept (apply_cashflow e amount symbol)
  unfolding apply_cashflow
  apply_cashflow-IsKept amount symbol s h =
      raise_if-Keeps IsKept (not (f.is_finite amount)) PositionError.infinite_cashflow s _ h (λ _.
        raise_if-Keeps IsKept
          (is_rolling e.sizing.mode
            && is_some s.rolling_active_margin
            && not (is_held symbol s.positions))
          PositionError.unknown_cashflow_symbol s _ h (λ _. h))

  restore_rows-IsKept :
      (d : Dict (Position F)) (rows : List (ℕ × Position F)) {d' : Dict (Position F)}
      → IsUnique d × All IsHeld d
      → restore_rows d rows ≡ ok d'
      → IsUnique d' × All IsHeld d'
  unfolding restore_rows is_sound
  restore_rows-IsKept d [] {d'} h r = subst (λ x. IsUnique x × All IsHeld x) (ok-injective r) h
  restore_rows-IsKept d (x ∷ rows) {d'} h r =
      let held : IsHeld x = (ground (arith, r), ground (arith, r)) in
      restore_rows-IsKept (insert x.0 x.1 d) rows {d' = d'}
        (IsUnique-insert x.0 x.1 d h.0, All-insert IsHeld x.0 x.1 d held h.1) (ground (arith, r))

  restore-IsKept : (c : PositionCheckpoint F) {s : Account F} → restore e c ≡ ok s → IsKept s
  unfolding restore restored
  restore-IsKept c {s} r = elim (Result-cases (restore_rows [] c.positions.rows)) [
    | inl (x, found) ↦ absurd (ground (arith, found, r))
    | inr (d, found) ↦
        let same : restored c d ≡ s =
          ground (arith, found, r, Result-cases (check_rolling e.sizing.mode c d)) in
        subst IsKept same (restore_rows-IsKept [] c.positions.rows {d' = d} (tt, tt) found)
  ]

  create_engine-IsKept :
      (saved : Option (PositionCheckpoint F)) {s : Account F}
      → create_engine e saved ≡ ok s
      → IsKept s
  unfolding create_engine initial
  create_engine-IsKept none {s} r =
      let same : initial e ≡ s = ground (arith, r) in subst IsKept same ((tt, tt))
  create_engine-IsKept (some c) {s} r = restore-IsKept c {s = s} (ground (arith, r))

  step-IsKept : {s t : Account F} → IsKept s → Step s t → IsKept t
  step-IsKept {s} h (processed time aware marks frame) = process-IsKept time aware marks frame s h
  step-IsKept {s} h (delta_applied frame time marks) =
      apply_external_deltas-IsKept frame time marks s h
  step-IsKept {s} h (cash_applied amount symbol) = apply_cashflow-IsKept amount symbol s h

  -- In every state that an engine reaches from its start or from a checkpoint it accepts, by calls
  -- that return and by calls that raise, no symbol has two positions, and each position has a
  -- quantity beyond the tolerance and at least one add.
  pub Reachable-IsKept : {s : Account F} → Reachable s → IsKept s
  Reachable-IsKept (opened saved r) = create_engine-IsKept saved r
  Reachable-IsKept (after h k) = step-IsKept (Reachable-IsKept h) k
