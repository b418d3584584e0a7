-- ===== src/Position/Selections.antt =====
-- The rows of `process`: `_selection_rows`, and the tests of a batch before its first trade.
use bfbt.Base.{
  ℕ, Bool, true, false, not, ◌&&◌, Option, none, some, List, [], ◌∷◌, map, ltb, leb, ◌==◌,
  if◌then◌else◌, length, filter, any, sort_by,
}
use bfbt.Config.Sizing.{SizingMode, ZeroPositionPolicy, HoldingMode, ExistingSignal}
use bfbt.Contracts.{ReasonCode}
use bfbt.Dict.{Dict, contains, union_size}
use bfbt.Exec.{Result, ok, err, ◌>>=◌, ◌>>◌, gets, raise_if}
use bfbt.Rank.Row.{Side}
use bfbt.Position.State.{PositionError, Account, PositionCheckpoint, Engine, Method, is_empty}
use bfbt.Position.Value.{AccountSnapshot, PositionRow}
use bfbt.Position.Legs.{SelectionRow, Selection, is_target}

-- A row of `_INSTRUCTION_SCHEMA`; the source event is none and the priority is the scheduled one in
-- every row.
pub record Instruction (F : Type 0) : Type 0 where
  pub instruction_id : ℕ
  pub decision_time : ℕ
  pub rank_source_time : Option ℕ
  pub symbol : ℕ
  pub side : Side
  pub instruction_mode : SizingMode
  pub sizing_base_notional : F
  pub pretrade_symbol_notional : F
  pub requested_delta_notional : F
  pub constrained_delta_notional : F
  pub posttrade_symbol_notional : F
  pub requested_target_weight : Option F
  pub reason_code : ReasonCode
  pub constraint_flags : List ReasonCode
  pub fee_cost : F
  pub slippage_cost : F
  pub used_margin : F
  pub available_margin : F
  pub run_id : ℕ

-- What one instruction says of its trade.
pub record Trade (F : Type 0) : Type 0 where
  pub symbol : ℕ
  pub side : Side
  pub base_notional : F
  pub old_notional : F
  pub requested_delta : F
  pub constrained_delta : F
  pub reason : ReasonCode
  pub flags : List ReasonCode
  pub fee_cost : F
  pub slippage_cost : F

pub record Totals (F : Type 0) : Type 0 where
  pub turnover : F
  pub fee : F
  pub slippage : F

pub record InstructionBatch (F : Type 0) : Type 0 where
  pub instructions : List (Instruction F)
  pub positions : List (PositionRow F)
  pub account : AccountSnapshot F
  pub saved : PositionCheckpoint F

-- The selections, with the columns that they may lack.
pub record SelectionFrame (F : Type 0) : Type 0 where
  pub has_columns : Bool
  pub has_signal_time : Bool
  pub has_target_weight : Bool
  pub rows : List (SelectionRow F)

abbrev pub is_single : HoldingMode → Bool
is_single HoldingMode.single_position_replace = true
is_single HoldingMode.independent = false

abbrev pub is_ignored : ExistingSignal → Bool
is_ignored ExistingSignal.ignore_signal = true
is_ignored ExistingSignal.add_signal = false

-- The first reason, if there is one.
abbrev pub first_reason : List ReasonCode → ReasonCode
first_reason [] = ReasonCode.accepted
first_reason (reason ∷ rest) = reason

unfoldable pub is_stale : Option ℕ → ℕ → Bool
is_stale none time = false
is_stale (some last) time = leb time last

module _ {F : Type 0} where
  -- The row loop of `_selection_rows`; `seen` are the symbols before.
  unfoldable pub check_rows :
      Engine F → List ℕ → List (SelectionRow F) → Result PositionError (List (Selection F))
  check_rows e seen [] = ok []
  check_rows e seen (r ∷ rows) =
      let rest = check_rows e (r.symbol ∷ seen) rows in
      if not (e.is_named r.symbol) then err PositionError.bad_selection else elim r.side [
        | none ↦ err PositionError.bad_selection
        | some side ↦
            if any (λ x. r.symbol == x) seen
            then err PositionError.duplicate_selection
            else elim rest [
              | err x ↦ err x
              | ok later ↦ ok (
                  record {
                    symbol = r.symbol;
                    side = side;
                    rank_source_time = r.rank_source_time;
                    target_weight = r.target_weight;
                  }
                  ∷ later)
            ]
      ]

  -- `cast(UTC_MS) == decision_time`, which a null is not.
  abbrev pub is_at : ℕ → SelectionRow F → Bool
  is_at time r = elim r.signal_time [ none ↦ false | some t ↦ t == time ]

  -- `_selection_rows`
  unfoldable pub selection_rows :
      Engine F → SelectionFrame F → ℕ → Result PositionError (List (Selection F))
  unfolding check_rows
  selection_rows e frame time =
      let kept = if frame.has_signal_time then filter (is_at time) frame.rows else frame.rows in
      if not frame.has_columns
      then err PositionError.selection_columns
      else if is_target e.sizing.mode && not frame.has_target_weight
      then err PositionError.missing_weights
      else check_rows e [] (sort_by (λ a b. leb a.symbol b.symbol) kept)

  -- `len(set(positions) | {…})`, or one for a replaced position.
  unfoldable pub possible_symbols : Engine F → Account F → List (Selection F) → ℕ
  possible_symbols e s rows =
      if is_single e.holding.mode && not (is_empty rows)
      then 1
      else union_size s.positions (map (λ r. (r.symbol, r)) rows)

  -- Whether the mode raises on a symbol that is not held.
  unfoldable pub has_zero_positions : Engine F → Account F → List (Selection F) → Bool
  has_zero_positions e s rows = elim e.sizing.mode [
    | SizingMode.position_fraction ↦ elim e.sizing.zero_position_policy [
      | none ↦ false
      | some policy ↦ elim policy [
        | ZeroPositionPolicy.raise_error ↦ any (λ r. not (contains r.symbol s.positions)) rows
        | _ ↦ false
      ]
    ]
    | _ ↦ false
  ]

  -- The tests of `process` between the selections and the first valuation.
  unfoldable pub check_batch : Engine F → Dict F → List (Selection F) → Method F Unit
  unfolding possible_symbols has_zero_positions
  check_batch e marks rows = do
    raise_if (is_single e.holding.mode && ltb 1 (length rows)) PositionError.too_many_signals
    raise_if (ltb e.max_pending_instructions (length rows)) PositionError.too_many_pending
    raise_if (any (λ r. not (contains r.symbol marks)) rows) PositionError.missing_mark
    s ← gets (λ s. s)
    raise_if (ltb e.max_position_state_rows (possible_symbols e s rows)) PositionError.too_many_rows
    raise_if (has_zero_positions e s rows) PositionError.zero_positions
