-- ===== src/Position/Preserve.antt =====
-- Every method of the position engine keeps its positions well-formed, also when it raises.
use bfbt.Base.{ℕ, ◌+◌, inl, inr, not, ◌&&◌, some, List, [], ◌∷◌, leb, Bool-cases, length}
use bfbt.Contracts.{ReasonCode}
use bfbt.Dict.{Dict, contains}
use bfbt.Exec.Keeps.{Keeps, continue-Keeps, raise_if-Keeps, lift-Keeps}
use bfbt.Float.{Float, FloatMath}
use bfbt.Position.State.{PositionError, Account, Engine}
use bfbt.Position.Value.{price_of, account_value}
use bfbt.Position.Execute.{execute}
use bfbt.Position.Legs.{Selection, Plan, plan_of, round_delta}
use bfbt.Position.Selections.{Trade, Totals, is_single, is_ignored}
use bfbt.Position.Process.{
  instruction_row, notional_of, constrain, trade_legs, no_trade, follow_plan, process_one,
}
use bfbt.Position.Batch.{
  no_totals, add_totals, process_rows, replace_one, replace_all, replaced_symbols, replace_held,
  process_batch,
}
use bfbt.Position.Kept.{IsKept, execute-IsKept}

module _ {F : Type 0} ⦃f : Float F⦄ ⦃m : FloatMath F⦄ (e : Engine F) (time : ℕ)
    (marks : Dict F) where
  instruction_row-IsKept :
      (row : Selection F) (trade : Trade F) → Keeps IsKept (instruction_row e time marks row trade)
  unfolding instruction_row
  instruction_row-IsKept row trade s h =
      let t : Account F = record s { sequence = s.sequence + 1 } in
      lift-Keeps IsKept
        (account_value e time marks (f.abs trade.constrained_delta) trade.fee_cost
          trade.slippage_cost t)
        t _ h (λ a _. h)

  trade_legs-IsKept :
      (equity turnover : F) (row : Selection F) (base close opening : F)
      → Keeps IsKept (trade_legs e time marks equity turnover row base close opening)
  unfolding trade_legs
  trade_legs-IsKept equity turnover row base close opening s h =
      let price = price_of marks row.symbol in
      let old = notional_of marks row.symbol s in
      let cut = constrain e marks equity turnover s row.symbol old close opening in
      lift-Keeps IsKept (round_delta e s row.symbol price cut.0 cut.1) s _ h (λ delta _.
        raise_if-Keeps IsKept
          (not (contains row.symbol s.positions)
            && f.lt f.epsilon (f.abs delta)
            && leb e.max_position_state_rows (length s.positions))
          PositionError.too_many_rows s _ h
          (λ _.
            continue-Keeps IsKept (execute e row.symbol delta price s) _
              (execute-IsKept e row.symbol delta price s h)
              (λ costs t k. instruction_row-IsKept row _ t k)))

  follow_plan-IsKept :
      (equity turnover : F) (row : Selection F) (old : F) (plan : Plan F)
      → Keeps IsKept (follow_plan e time marks equity turnover row old plan)
  unfolding follow_plan
  follow_plan-IsKept equity turnover row old (Plan.skipped reason) =
      instruction_row-IsKept row (no_trade row old reason)
  follow_plan-IsKept equity turnover row old (Plan.sized base close opening) =
      trade_legs-IsKept equity turnover row base close opening

  process_one-IsKept :
      (equity turnover : F) (row : Selection F)
      → Keeps IsKept (process_one e time marks equity turnover row)
  unfolding process_one
  process_one-IsKept equity turnover row s h =
      let old = notional_of marks row.symbol s in
      raise_if-Keeps IsKept (not (contains row.symbol marks)) PositionError.missing_mark s _ h (λ _.
        lift-Keeps IsKept (plan_of e s row old equity) s _ h
          (λ plan _. follow_plan-IsKept equity turnover row old plan s h))

  process_rows-IsKept :
      (equity : F) (totals : Totals F) (rows : List (Selection F))
      → Keeps IsKept (process_rows e time marks equity totals rows)
  unfolding process_rows
  process_rows-IsKept equity totals [] s h = h
  process_rows-IsKept equity totals (row ∷ rows) s h =
      continue-Keeps IsKept (process_one e time marks equity totals.turnover row s) _
        (process_one-IsKept equity totals.turnover row s h)
        (λ x t k.
          continue-Keeps IsKept
            (process_rows e time marks equity
              (add_totals totals x.constrained_delta_notional x.fee_cost x.slippage_cost) rows t)
            _
            (process_rows-IsKept equity
              (add_totals totals x.constrained_delta_notional x.fee_cost x.slippage_cost) rows t k)
            (λ y u l. l))

  replace_one-IsKept :
      (row : Selection F) (symbol : ℕ) → Keeps IsKept (replace_one e time marks row symbol)
  unfolding replace_one
  replace_one-IsKept row symbol s h =
      let old = notional_of marks symbol s in
      continue-Keeps IsKept (execute e symbol (f.neg old) (price_of marks symbol) s) _
        (execute-IsKept e symbol (f.neg old) (price_of marks symbol) s h)
        (λ costs t k. instruction_row-IsKept row _ t k)

  replace_all-IsKept :
      (row : Selection F) (totals : Totals F) (symbols : List ℕ)
      → Keeps IsKept (replace_all e time marks row totals symbols)
  unfolding replace_all
  replace_all-IsKept row totals [] s h = h
  replace_all-IsKept row totals (symbol ∷ symbols) s h =
      continue-Keeps IsKept (replace_one e time marks row symbol s) _
        (replace_one-IsKept row symbol s h)
        (λ x t k.
          continue-Keeps IsKept
            (replace_all e time marks row
              (add_totals totals x.constrained_delta_notional x.fee_cost x.slippage_cost) symbols t)
            _
            (replace_all-IsKept row
              (add_totals totals x.constrained_delta_notional x.fee_cost x.slippage_cost) symbols t
              k)
            (λ y u l. l))

  replace_held-IsKept :
      (equity : F) (rows : List (Selection F))
      → Keeps IsKept (replace_held e time marks equity rows)
  unfolding replace_held
  replace_held-IsKept equity [] s h = h
  replace_held-IsKept equity (row ∷ rest) s h = elim (Bool-cases (not (is_single e.holding.mode))) [
    | inl x ↦ rw (x) h
    | inr x ↦
        elim (Bool-cases
          (contains row.symbol s.positions && is_ignored e.holding.existing_signal)) [
            | inl y ↦
                let trade = no_trade row (notional_of marks row.symbol s) ReasonCode.already_held in
                rw (x, y)
                  (continue-Keeps IsKept (instruction_row e time marks row trade s) _
                    (instruction_row-IsKept row trade s h) (λ z t k. k))
            | inr y ↦
                rw (x, y)
                  (continue-Keeps IsKept
                    (replace_all e time marks row no_totals (replaced_symbols row.symbol s) s) _
                    (replace_all-IsKept row no_totals (replaced_symbols row.symbol s) s h)
                    (λ z t k.
                      lift-Keeps IsKept
                        (account_value e time marks z.1.turnover z.1.fee z.1.slippage t) t _ k
                        (λ v _. k)))
          ]
  ]

  pub process_batch-IsKept :
      (rows : List (Selection F)) → Keeps IsKept (process_batch e time marks rows)
  unfolding process_batch
  process_batch-IsKept rows s h =
      lift-Keeps IsKept (account_value e time marks f.nought f.nought f.nought s) s _ h
        (λ pretrade _.
          continue-Keeps IsKept (replace_held e time marks pretrade.equity rows s) _
            (replace_held-IsKept pretrade.equity rows s h)
            (λ z t k.
              continue-Keeps IsKept (process_rows e time marks z.2 z.1 z.3 t) _
                (process_rows-IsKept z.2 z.1 z.3 t k)
                (λ y u l.
                  lift-Keeps IsKept
                    (account_value e time marks y.1.turnover y.1.fee y.1.slippage
                      (record u { last_decision_time = some time }))
                    (record u { last_decision_time = some time }) _ l (λ v _. l))))
