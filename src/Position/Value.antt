-- ===== src/Position/Value.antt =====
-- What the account is worth at given marks. A mark that is absent counts nothing; `_validate_marks`
-- and `process` raise before one is read.
use bfbt.Base.{ℕ, not, ◌||◌, none, some, List, map, if◌then◌else◌, length, any}
use bfbt.Dict.{Dict, lookup, contains, all_items, sort}
use bfbt.Exec.{Result, ok, err}
use bfbt.Float.{Float, FloatMath, fmax}
use bfbt.Position.State.{PositionError, Position, Account, Engine}

pub record AccountSnapshot (F : Type 0) : Type 0 where
  pub timestamp : ℕ
  pub cash_balance : F
  pub unrealized_pnl : F
  pub equity : F
  pub used_margin : F
  pub available_margin : F
  pub gross_notional : F
  pub net_notional : F
  pub turnover_notional : F
  pub fee_cost : F
  pub slippage_cost : F
  pub position_state_rows : ℕ

-- A row of `_POSITION_SNAPSHOT_SCHEMA`.
pub record PositionRow (F : Type 0) : Type 0 where
  pub timestamp : ℕ
  pub symbol : ℕ
  pub quantity : F
  pub signed_notional : F
  pub average_entry_price : F
  pub unrealized_pnl : F
  pub used_margin : F
  pub consecutive_adds : ℕ
  pub run_id : ℕ

module _ {F : Type 0} ⦃f : Float F⦄ where
  unfoldable pub price_of : Dict F → ℕ → F
  price_of marks k = elim (lookup k marks) [ none ↦ f.nought | some x ↦ x ]

  -- `_validate_marks`; the marks come back as they are.
  unfoldable pub validate_marks : Engine F → Dict F → Account F → Result PositionError (Dict F)
  validate_marks e marks s =
      if not (all_items (λ k _. contains k marks) s.positions)
      then err PositionError.held_mark_missing
      else if any (λ x. not (e.is_named x.0) || not (f.is_finite x.1) || f.le x.1 f.nought) marks
      then err PositionError.bad_mark
      else ok marks

  -- `_notionals`
  unfoldable pub notionals : Dict F → Dict (Position F) → Dict F
  unfolding price_of
  notionals marks d = map (λ x. (x.0, f.mul x.1.quantity (price_of marks x.0))) d

  -- `quantity * (mark - average_entry_price)`
  unfoldable pub position_pnl : Dict F → ℕ × Position F → F
  unfolding price_of
  position_pnl marks x = f.mul x.1.quantity (f.sub (price_of marks x.0) x.1.average_entry_price)

  module _ ⦃m : FloatMath F⦄ where
    unfoldable pub unrealized : Dict F → Account F → F
    unfolding position_pnl
    unrealized marks s = m.total (map (position_pnl marks) s.positions)

    unfoldable pub gross_of : Dict F → F
    gross_of values = m.total (map (λ x. f.abs x.1) values)

    unfoldable pub net_of : Dict F → F
    net_of values = m.total (map (λ x. x.1) values)

    -- `_account_snapshot`
    unfoldable pub account_value :
        Engine F
        → ℕ
        → Dict F
        → (turnover fee slippage : F) → Account F
        → Result PositionError (AccountSnapshot F)
    unfolding notionals unrealized gross_of net_of
    account_value e time marks turnover fee slippage s =
        let values = notionals marks s.positions in
        let pnl = unrealized marks s in
        let equity = f.add s.cash_balance pnl in
        let used = m.div (gross_of values) e.leverage in
        if not (f.is_finite equity) || f.le equity f.nought
        then err PositionError.equity_gone
        else ok (record {
          timestamp = time;
          cash_balance = s.cash_balance;
          unrealized_pnl = pnl;
          equity = equity;
          used_margin = used;
          available_margin =
              fmax f.nought (f.sub (f.sub equity used) e.capital.reserved_cost_buffer);
          gross_notional = gross_of values;
          net_notional = net_of values;
          turnover_notional = turnover;
          fee_cost = fee;
          slippage_cost = slippage;
          position_state_rows = length s.positions;
        })

    -- A row of `_position_snapshot`.
    unfoldable pub position_row : Engine F → ℕ → Dict F → ℕ × Position F → PositionRow F
    unfolding price_of position_pnl
    position_row e time marks x =
        let signed = f.mul x.1.quantity (price_of marks x.0) in
        record {
          timestamp = time;
          symbol = x.0;
          quantity = x.1.quantity;
          signed_notional = signed;
          average_entry_price = x.1.average_entry_price;
          unrealized_pnl = position_pnl marks x;
          used_margin = m.div (f.abs signed) e.leverage;
          consecutive_adds = x.1.consecutive_adds;
          run_id = e.run_id;
        }

    -- `_position_snapshot`
    unfoldable pub position_rows : Engine F → ℕ → Dict F → Account F → List (PositionRow F)
    unfolding position_row
    position_rows e time marks s = map (position_row e time marks) (sort s.positions)

    -- `account_snapshot`
    unfoldable pub account_snapshot :
        Engine F → ℕ → Dict F → Account F → Result PositionError (AccountSnapshot F)
    unfolding validate_marks account_value
    account_snapshot e time marks s = elim (validate_marks e marks s) [
      | err x ↦ err x
      | ok known ↦ account_value e time known f.nought f.nought f.nought s
    ]

    -- `position_snapshot`
    unfoldable pub position_snapshot :
        Engine F → ℕ → Dict F → Account F → Result PositionError (List (PositionRow F))
    unfolding validate_marks position_rows
    position_snapshot e time marks s = elim (validate_marks e marks s) [
      | err x ↦ err x
      | ok known ↦ ok (position_rows e time known s)
    ]
