-- ===== src/Contracts.antt =====
-- src/bfbt/data/v2_contracts.py: the closed vocabulary of priorities and reason codes.
use bfbt.Base.{ℕ}

pub data EventPriority : Type 0 where
  liquidation_reserved portfolio_risk symbol_risk universe_forced_exit : EventPriority
  scheduled_strategy : EventPriority

-- `int(priority)`: lower values win.
unfoldable pub to_int : EventPriority → ℕ
to_int EventPriority.liquidation_reserved = 0
to_int EventPriority.portfolio_risk = 100
to_int EventPriority.symbol_risk = 200
to_int EventPriority.universe_forced_exit = 300
to_int EventPriority.scheduled_strategy = 400

pub data ReasonCode : Type 0 where
  selected_current_rank selected_historical_rank rank_out_of_range : ReasonCode
  insufficient_rank_history historical_rank_not_currently_eligible not_selected : ReasonCode
  rank_descent_triggered : ReasonCode
  accepted scaled_max_gross_exposure scaled_max_net_exposure scaled_max_symbol_weight : ReasonCode
  scaled_max_symbol_notional rejected_max_consecutive_adds scaled_max_turnover : ReasonCode
  rejected_insufficient_margin zero_position_skipped already_held replaced_by_signal : ReasonCode
  stop_loss_triggered take_profit_triggered trailing_stop_triggered : ReasonCode
  portfolio_stop_loss_triggered portfolio_take_profit_triggered : ReasonCode
  portfolio_max_drawdown_triggered cooldown_active suppressed_by_higher_priority : ReasonCode
  universe_forced_exit end_of_data_unfilled : ReasonCode
