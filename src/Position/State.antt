-- ===== src/Position/State.antt =====
-- The records of the position engine, its checkpoint, and what opens and saves it.
use bfbt.Base.{
  ℕ, Bool, true, false, not, ◌&&◌, ◌||◌, Option, none, some, List, [], ◌∷◌, ltb, leb, if◌then◌else◌,
  is_some, length, any,
}
use bfbt.Config.Sizing.{SizingMode, PositionSizing, PortfolioConstraints, HoldingPolicy, Capital}
use bfbt.Dict.{Dict, contains, insert, sort}
use bfbt.Exec.{Result, ok, err, Exec}
use bfbt.Float.{Float}
use bfbt.Rank.Row.{Side}
use bfbt.Risk.State.{Frame}

-- `PositionInstructionError` and `PositionStateBudgetExceeded` by message. The assertions, and the
-- OverflowError and ValueError that `floor` raises, have a constructor each.
pub data PositionError : Type 0 where
  run_id_not_explicit bad_leverage bad_budget bad_steps too_many_rows : PositionError
  checkpoint_columns checkpoint_duplicate checkpoint_invalid rolling_missing_margin : PositionError
  rolling_not_finite rolling_active_mismatch rolling_unsettled unexpected_rolling : PositionError
  infinite_cashflow unknown_cashflow_symbol delta_columns too_many_pending missing_mark :
      PositionError
  naive_time stale_time too_many_signals zero_positions selection_columns missing_weights :
      PositionError
  bad_selection duplicate_selection held_mark_missing bad_mark atomic_reversal : PositionError
  no_active_margin invalid_margin equity_gone assertion floor_undefined null_weight : PositionError

pub record Position (F : Type 0) : Type 0 where
  pub quantity : F
  pub average_entry_price : F
  pub consecutive_adds : ℕ

pub data ResetReason : Type 0 where
  below_min above_max : ResetReason

-- `_MutableState`
pub record Account (F : Type 0) : Type 0 where
  pub cash_balance : F
  pub positions : Dict (Position F)
  pub sequence : ℕ
  pub last_decision_time : Option ℕ
  pub rolling_margin : Option F
  pub rolling_active_margin : Option F
  pub rolling_round_net_pnl : F
  pub rolling_reset_count : ℕ
  pub rolling_last_reset_reason : Option ResetReason

-- `PositionCheckpoint`: the frame holds a row for each position, with its symbol.
pub record PositionCheckpoint (F : Type 0) : Type 0 where
  pub cash_balance : F
  pub sequence : ℕ
  pub last_decision_time : Option ℕ
  pub positions : Frame (ℕ × Position F)
  pub rolling_margin : Option F
  pub rolling_active_margin : Option F
  pub rolling_round_net_pnl : F
  pub rolling_reset_count : ℕ
  pub rolling_last_reset_reason : Option ResetReason

-- What an instruction's id is the digest of, beside the version and the run id.
pub record Identity : Type 0 where
  pub sequence : ℕ
  pub decision_time : ℕ
  pub symbol : ℕ
  pub side : Side

-- What `__init__` keeps. Symbols and ids are naturals in the order of their texts: which run ids are
-- explicit and which symbols are not empty are parameters, and so is the digest of an
-- identity.
pub record Engine (F : Type 0) : Type 0 where
  pub sizing : PositionSizing F
  pub constraints : PortfolioConstraints F
  pub holding : HoldingPolicy
  pub capital : Capital F
  pub leverage : F
  pub fee_rate : F
  pub slippage_rate : F
  pub quantity_steps : Dict F
  pub run_id : ℕ
  pub max_position_state_rows : ℕ
  pub max_pending_instructions : ℕ
  pub is_explicit : ℕ → Bool
  pub is_named : ℕ → Bool
  pub digest : Identity → ℕ

abbrev pub Method : Type 0 → Type 0 → Type 0
Method F A = Exec PositionError (Account F) A

abbrev pub is_rolling : SizingMode → Bool
is_rolling SizingMode.rolling_margin = true
is_rolling _ = false

abbrev pub is_empty : {A : Type 0} → List A → Bool
is_empty [] = true
is_empty (x ∷ xs) = false

module _ {F : Type 0} where
  -- `checkpoint`
  unfoldable pub checkpoint : Account F → PositionCheckpoint F
  checkpoint s = record {
    cash_balance = s.cash_balance;
    sequence = s.sequence;
    last_decision_time = s.last_decision_time;
    positions = record { has_columns = true; rows = sort s.positions };
    rolling_margin = s.rolling_margin;
    rolling_active_margin = s.rolling_active_margin;
    rolling_round_net_pnl = s.rolling_round_net_pnl;
    rolling_reset_count = s.rolling_reset_count;
    rolling_last_reset_reason = s.rolling_last_reset_reason;
  }

  unfoldable pub restored : PositionCheckpoint F → Dict (Position F) → Account F
  restored c positions = record {
    cash_balance = c.cash_balance;
    positions = positions;
    sequence = c.sequence;
    last_decision_time = c.last_decision_time;
    rolling_margin = c.rolling_margin;
    rolling_active_margin = c.rolling_active_margin;
    rolling_round_net_pnl = c.rolling_round_net_pnl;
    rolling_reset_count = c.rolling_reset_count;
    rolling_last_reset_reason = c.rolling_last_reset_reason;
  }

module _ {F : Type 0} ⦃f : Float F⦄ where
  -- The state without a checkpoint.
  unfoldable pub initial : Engine F → Account F
  initial e = record {
    cash_balance = e.capital.initial_equity;
    positions = [];
    sequence = 0;
    last_decision_time = none;
    rolling_margin = if is_rolling e.sizing.mode then e.sizing.rolling_initial_margin else none;
    rolling_active_margin = none;
    rolling_round_net_pnl = f.nought;
    rolling_reset_count = 0;
    rolling_last_reset_reason = none;
  }

  -- The values of a row that a checkpoint may hold.
  unfoldable pub is_sound : Position F → Bool
  is_sound p =
      f.is_finite p.quantity
      && not (f.le (f.abs p.quantity) f.epsilon)
      && f.is_finite p.average_entry_price
      && not (f.le p.average_entry_price f.nought)
      && leb 1 p.consecutive_adds

  -- The row loop of `_restore`.
  unfoldable pub restore_rows :
      Dict (Position F) → List (ℕ × Position F) → Result PositionError (Dict (Position F))
  unfolding is_sound
  restore_rows d [] = ok d
  restore_rows d (e ∷ rows) =
      let rest = restore_rows (insert e.0 e.1 d) rows in
      if contains e.0 d
      then err PositionError.checkpoint_duplicate
      else if not (is_sound e.1)
      then err PositionError.checkpoint_invalid
      else rest

  -- Whether a margin is not a positive number.
  abbrev pub is_unusable : Option F → Bool
  is_unusable none = true
  is_unusable (some x) = f.le x f.nought

  abbrev pub is_infinite : Option F → Bool
  is_infinite none = false
  is_infinite (some x) = not (f.is_finite x)

  -- The tests of the rolling state; the count of resets is a natural.
  unfoldable pub check_rolling :
      SizingMode → PositionCheckpoint F → Dict (Position F) → Result PositionError Unit
  check_rolling mode c d =
      if is_rolling mode
      then (if is_unusable c.rolling_margin
          then err PositionError.rolling_missing_margin
          else if is_infinite c.rolling_margin
              || not (f.is_finite c.rolling_round_net_pnl)
              || is_infinite c.rolling_active_margin
          then err PositionError.rolling_not_finite
          else if is_empty d && is_some c.rolling_active_margin
          then err PositionError.rolling_active_mismatch
          else if not (is_empty d) && not (is_some c.rolling_active_margin)
          then err PositionError.rolling_active_mismatch
          else if is_empty d && f.lt f.epsilon (f.abs c.rolling_round_net_pnl)
          then err PositionError.rolling_unsettled
          else ok tt)
      else if is_some c.rolling_margin
      then err PositionError.unexpected_rolling
      else ok tt

  -- `_restore`
  unfoldable pub restore : Engine F → PositionCheckpoint F → Result PositionError (Account F)
  unfolding restore_rows check_rolling restored
  restore e c =
      if ltb e.max_position_state_rows (length c.positions.rows)
      then err PositionError.too_many_rows
      else if not c.positions.has_columns
      then err PositionError.checkpoint_columns
      else elim (restore_rows [] c.positions.rows) [
        | err x ↦ err x
        | ok d ↦ elim (check_rolling e.sizing.mode c d) [ err x ↦ err x | ok u ↦ ok (restored c d) ]
      ]

  -- The tests of `__init__`, then `_restore`.
  unfoldable pub create_engine :
      Engine F → Option (PositionCheckpoint F) → Result PositionError (Account F)
  unfolding restore initial
  create_engine e saved =
      if not (e.is_explicit e.run_id)
      then err PositionError.run_id_not_explicit
      else if not (f.is_finite e.leverage) || f.le e.leverage f.nought
      then err PositionError.bad_leverage
      else if ltb e.max_position_state_rows 1 || ltb e.max_pending_instructions 1
      then err PositionError.bad_budget
      else if any (λ x. not (e.is_named x.0) || not (f.is_finite x.1) || f.le x.1 f.nought)
          e.quantity_steps
      then err PositionError.bad_steps
      else elim saved [ none ↦ ok (initial e) | some c ↦ restore e c ]
