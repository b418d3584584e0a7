-- ===== src/Position/Process.antt =====
-- `_instruction_row` and `_process_one`: one selection becomes one instruction.
use bfbt.Base.{ℕ, ◌+◌, not, ◌&&◌, none, some, List, [], ◌∷◌, leb, if◌then◌else◌, length}
use bfbt.Contracts.{ReasonCode}
use bfbt.Dict.{Dict, lookup, contains}
use bfbt.Exec.{◌>>=◌, ◌>>◌, pure, lift, gets, modify, raise_if}
use bfbt.Float.{Float, FloatMath}
use bfbt.Position.State.{PositionError, Account, Engine, Method}
use bfbt.Position.Value.{price_of, notionals, account_value}
use bfbt.Position.Execute.{execute}
use bfbt.Position.Limit.{limit_close_turnover, limit_opening}
use bfbt.Position.Legs.{Selection, Plan, plan_of, round_delta}
use bfbt.Position.Selections.{Instruction, Trade, first_reason}

module _ {F : Type 0} ⦃f : Float F⦄ ⦃m : FloatMath F⦄ where
  -- `_instruction_row`: the sequence is counted before the account is valued.
  unfoldable pub instruction_row :
      Engine F → ℕ → Dict F → Selection F → Trade F → Method F (Instruction F)
  instruction_row e time marks row trade = do
    modify (λ s. record s { sequence = s.sequence + 1 })
    s ← gets (λ s. s)
    account ← lift (
        account_value e time marks (f.abs trade.constrained_delta) trade.fee_cost
          trade.slippage_cost s)
    pure (record {
      instruction_id = e.digest (record {
        sequence = s.sequence;
        decision_time = time;
        symbol = trade.symbol;
        side = trade.side;
      });
      decision_time = time;
      rank_source_time = row.rank_source_time;
      symbol = trade.symbol;
      side = trade.side;
      instruction_mode = e.sizing.mode;
      sizing_base_notional = trade.base_notional;
      pretrade_symbol_notional = trade.old_notional;
      requested_delta_notional = trade.requested_delta;
      constrained_delta_notional = trade.constrained_delta;
      posttrade_symbol_notional = price_of (notionals marks s.positions) trade.symbol;
      requested_target_weight = row.target_weight;
      reason_code = trade.reason;
      constraint_flags = trade.flags;
      fee_cost = trade.fee_cost;
      slippage_cost = trade.slippage_cost;
      used_margin = account.used_margin;
      available_margin = account.available_margin;
      run_id = e.run_id;
    })

  -- The notional of a held symbol, or nothing.
  unfoldable pub notional_of : Dict F → ℕ → Account F → F
  notional_of marks symbol s = elim (lookup symbol s.positions) [
    | none ↦ f.nought
    | some p ↦ f.mul p.quantity (price_of marks symbol)
  ]

  -- What the constraints leave of two legs, and the reasons.
  unfoldable pub constrain :
      Engine F
      → Dict F
      → (sizing_equity batch_turnover : F) → Account F
      → ℕ
      → (old_notional close_leg opening_leg : F) → F × F × List ReasonCode
  constrain e marks equity turnover s symbol old close opening =
      let filled = limit_close_turnover e close equity turnover in
      let opened =
        limit_opening e marks equity (f.add turnover (f.abs filled)) (f.abs filled) s symbol
          (f.add old filled) opening in
      if f.lt f.epsilon (f.abs (f.sub filled close))
      then (filled, f.nought, ReasonCode.scaled_max_turnover ∷ [])
      else (filled, opened.0, opened.1)

  -- `_process_one` where the legs are known.
  unfoldable pub trade_legs :
      Engine F
      → ℕ
      → Dict F
      → (sizing_equity batch_turnover : F) → Selection F
      → (base close_leg opening_leg : F) → Method F (Instruction F)
  trade_legs e time marks equity turnover row base close opening = do
    s ← gets (λ s. s)
    let price = price_of marks row.symbol
    let old = notional_of marks row.symbol s
    let (filled, opened, flags) = constrain e marks equity turnover s row.symbol old close opening
    delta ← lift (round_delta e s row.symbol price filled opened)
    raise_if
        (not (contains row.symbol s.positions)
          && f.lt f.epsilon (f.abs delta)
          && leb e.max_position_state_rows (length s.positions))
        PositionError.too_many_rows
    (fee, slippage) ← execute e row.symbol delta price
    instruction_row e time marks row (record {
      symbol = row.symbol;
      side = row.side;
      base_notional = base;
      old_notional = old;
      requested_delta = f.add close opening;
      constrained_delta = delta;
      reason = first_reason flags;
      flags = flags;
      fee_cost = fee;
      slippage_cost = slippage;
    })

  -- A trade of nothing.
  unfoldable pub no_trade : Selection F → F → ReasonCode → Trade F
  no_trade row old reason = record {
    symbol = row.symbol;
    side = row.side;
    base_notional = f.nought;
    old_notional = old;
    requested_delta = f.nought;
    constrained_delta = f.nought;
    reason = reason;
    flags = [];
    fee_cost = f.nought;
    slippage_cost = f.nought;
  }

  -- The instruction of a plan.
  unfoldable pub follow_plan :
      Engine F
      → ℕ
      → Dict F
      → (sizing_equity batch_turnover : F) → Selection F
      → (old_notional : F) → Plan F
      → Method F (Instruction F)
  unfolding trade_legs no_trade
  follow_plan e time marks equity turnover row old (Plan.skipped reason) =
      instruction_row e time marks row (no_trade row old reason)
  follow_plan e time marks equity turnover row old (Plan.sized base close opening) =
      trade_legs e time marks equity turnover row base close opening

  -- `_process_one`
  unfoldable pub process_one :
      Engine F
      → ℕ
      → Dict F
      → (sizing_equity batch_turnover : F) → Selection F
      → Method F (Instruction F)
  unfolding follow_plan
  process_one e time marks equity turnover row = do
    raise_if (not (contains row.symbol marks)) PositionError.missing_mark
    s ← gets (λ s. s)
    plan ← lift (plan_of e s row (notional_of marks row.symbol s) equity)
    follow_plan e time marks equity turnover row (notional_of marks row.symbol s) plan
