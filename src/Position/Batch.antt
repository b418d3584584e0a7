-- ===== src/Position/Batch.antt =====
-- `process` and `apply_external_deltas`: a batch of selections or of deltas.
use bfbt.Base.{
  ℕ, Bool, not, ◌&&◌, Option, none, some, List, [], ◌∷◌, ◌++◌, map, ltb, leb, if◌then◌else◌, length,
  sort_by,
}
use bfbt.Contracts.{ReasonCode}
use bfbt.Dict.{Dict, contains, erase, sort}
use bfbt.Exec.{ok, ◌>>=◌, ◌>>◌, pure, lift, gets, modify, raise_if}
use bfbt.Float.{Float, FloatMath}
use bfbt.Rank.Row.{Side}
use bfbt.Risk.State.{Frame}
use bfbt.Position.State.{PositionError, Account, PositionCheckpoint, Engine, Method, checkpoint}
use bfbt.Position.Value.{
  AccountSnapshot, PositionRow, price_of, validate_marks, account_value, position_rows,
}
use bfbt.Position.Execute.{execute}
use bfbt.Position.Legs.{Selection}
use bfbt.Position.Selections.{
  Instruction, Totals, InstructionBatch, SelectionFrame, is_single, is_ignored, is_stale,
  selection_rows, check_batch,
}
use bfbt.Position.Process.{instruction_row, notional_of, no_trade, process_one}

-- A row of the deltas that `apply_external_deltas` is given.
pub record DeltaRow (F : Type 0) : Type 0 where
  pub symbol : ℕ
  pub constrained_delta_notional : Option F

-- A row of `_EXTERNAL_EXECUTION_SCHEMA`.
pub record Execution (F : Type 0) : Type 0 where
  pub symbol : ℕ
  pub delta_notional : F
  pub fee_cost : F
  pub slippage_cost : F

pub record ExternalBatch (F : Type 0) : Type 0 where
  pub executions : List (Execution F)
  pub positions : List (PositionRow F)
  pub account : AccountSnapshot F
  pub saved : PositionCheckpoint F

module _ {F : Type 0} ⦃f : Float F⦄ ⦃m : FloatMath F⦄ where
  unfoldable pub no_totals : Totals F
  no_totals = record { turnover = f.nought; fee = f.nought; slippage = f.nought }

  unfoldable pub add_totals : Totals F → (delta fee slippage : F) → Totals F
  add_totals t delta fee slippage = record {
    turnover = f.add t.turnover (f.abs delta);
    fee = f.add t.fee fee;
    slippage = f.add t.slippage slippage;
  }

  -- The loop of `process` over its selections.
  unfoldable pub process_rows :
      Engine F
      → ℕ
      → Dict F
      → (sizing_equity : F) → Totals F
      → List (Selection F)
      → Method F (List (Instruction F) × Totals F)
  process_rows e time marks equity totals [] = pure ([], totals)
  process_rows e time marks equity totals (row ∷ rows) = do
    x ← process_one e time marks equity totals.turnover row
    let next = add_totals totals x.constrained_delta_notional x.fee_cost x.slippage_cost
    (xs, last) ← process_rows e time marks equity next rows
    pure (x ∷ xs, last)

  -- The close of one held symbol that a new signal replaces.
  unfoldable pub replace_one : Engine F → ℕ → Dict F → Selection F → ℕ → Method F (Instruction F)
  replace_one e time marks selected symbol = do
    s ← gets (λ s. s)
    let price = price_of marks symbol
    let old = notional_of marks symbol s
    (fee, slippage) ← execute e symbol (f.neg old) price
    instruction_row e time marks selected (record {
      symbol = symbol;
      side = Side.flat;
      base_notional = f.abs old;
      old_notional = old;
      requested_delta = f.neg old;
      constrained_delta = f.neg old;
      reason = ReasonCode.replaced_by_signal;
      flags = [];
      fee_cost = fee;
      slippage_cost = slippage;
    })

  -- The loop over `sorted(held_symbols - {selected_symbol})`.
  unfoldable pub replace_all :
      Engine F
      → ℕ
      → Dict F
      → Selection F
      → Totals F
      → List ℕ
      → Method F (List (Instruction F) × Totals F)
  replace_all e time marks selected totals [] = pure ([], totals)
  replace_all e time marks selected totals (symbol ∷ symbols) = do
    x ← replace_one e time marks selected symbol
    let next = add_totals totals x.constrained_delta_notional x.fee_cost x.slippage_cost
    (xs, last) ← replace_all e time marks selected next symbols
    pure (x ∷ xs, last)

  -- The symbols held beside the selected one, in order.
  unfoldable pub replaced_symbols : ℕ → Account F → List ℕ
  replaced_symbols symbol s = map (λ x. x.0) (sort (erase symbol s.positions))

  -- What the branch on `single_position_replace` leaves to the loop: its rows, totals and equity,
  -- and the selections that are left.
  unfoldable pub replace_held :
      Engine F
      → ℕ
      → Dict F
      → (sizing_equity : F) → List (Selection F)
      → Method F (List (Instruction F) × Totals F × F × List (Selection F))
  unfolding replaced_symbols
  replace_held e time marks equity [] s = (ok ([], no_totals, equity, []), s)
  replace_held e time marks equity (selected ∷ rest) s =
      if not (is_single e.holding.mode)
      then (ok ([], no_totals, equity, selected ∷ rest), s)
      else if contains selected.symbol s.positions && is_ignored e.holding.existing_signal
      then (do
        x ←
            instruction_row e time marks selected
              (no_trade selected (notional_of marks selected.symbol s) ReasonCode.already_held)
        pure (x ∷ [], no_totals, equity, []))
          s
      else (do
        (xs, totals) ←
            replace_all e time marks selected no_totals (replaced_symbols selected.symbol s)
        t ← gets (λ t. t)
        value ← lift (account_value e time marks totals.turnover totals.fee totals.slippage t)
        pure (xs, totals, value.equity, selected ∷ rest))
          s

  -- `process` once the selections are read and tested.
  unfoldable pub process_batch :
      Engine F → ℕ → Dict F → List (Selection F) → Method F (InstructionBatch F)
  process_batch e time marks rows = do
    s ← gets (λ s. s)
    pretrade ← lift (account_value e time marks f.nought f.nought f.nought s)
    (closed, totals, equity, left) ← replace_held e time marks pretrade.equity rows
    (traded, sums) ← process_rows e time marks equity totals left
    modify (λ t. record t { last_decision_time = some time })
    t ← gets (λ t. t)
    account ← lift (account_value e time marks sums.turnover sums.fee sums.slippage t)
    pure (record {
      instructions = closed ++ traded;
      positions = position_rows e time marks t;
      account = account;
      saved = checkpoint t;
    })

  -- `process`; `aware` is that the decision time has a time zone.
  unfoldable pub process :
      Engine F → ℕ → Bool → Dict F → SelectionFrame F → Method F (InstructionBatch F)
  unfolding is_stale
  process e time aware marks frame = do
    raise_if (not aware) PositionError.naive_time
    s ← gets (λ s. s)
    raise_if (is_stale s.last_decision_time time) PositionError.stale_time
    known ← lift (validate_marks e marks s)
    rows ← lift (selection_rows e frame time)
    check_batch e known rows
    process_batch e time known rows

  unfoldable pub or_nought : Option F → F
  or_nought none = f.nought
  or_nought (some x) = x

  -- The row loop of `apply_external_deltas`.
  unfoldable pub apply_rows :
      Engine F → Dict F → Totals F → List (DeltaRow F) → Method F (List (Execution F) × Totals F)
  unfolding or_nought
  apply_rows e marks totals [] = pure ([], totals)
  apply_rows e marks totals (row ∷ rows) = do
    raise_if (not (contains row.symbol marks)) PositionError.missing_mark
    let delta = or_nought row.constrained_delta_notional
    (fee, slippage) ← execute e row.symbol delta (price_of marks row.symbol)
    (xs, last) ← apply_rows e marks (add_totals totals delta fee slippage) rows
    pure (
      record {
        symbol = row.symbol;
        delta_notional = delta;
        fee_cost = fee;
        slippage_cost = slippage;
      }
          ∷ xs,
      last,
    )

  -- `apply_external_deltas`
  unfoldable pub apply_external_deltas :
      Engine F → Frame (DeltaRow F) → ℕ → Dict F → Method F (ExternalBatch F)
  apply_external_deltas e frame time marks = do
    s ← gets (λ s. s)
    known ← lift (validate_marks e marks s)
    raise_if (not frame.has_columns) PositionError.delta_columns
    raise_if (ltb e.max_pending_instructions (length frame.rows)) PositionError.too_many_pending
    (xs, totals) ← apply_rows e known no_totals (sort_by (λ a b. leb a.symbol b.symbol) frame.rows)
    t ← gets (λ t. t)
    account ← lift (account_value e time known totals.turnover totals.fee totals.slippage t)
    pure (record {
      executions = xs;
      positions = position_rows e time known t;
      account = account;
      saved = checkpoint t;
    })
