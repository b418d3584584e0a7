-- ===== src/Risk/Evaluate.antt =====
-- `evaluate`: one complete bar of the risk clock. Its parts are methods of their own, in the
-- order of the source.
pub mod Symbols
pub mod Portfolio
pub mod Rows
use bfbt.Base.{
  ℕ, ◌+◌, Bool, true, false, not, ◌||◌, Option, none, some, List, [], ◌∷◌, ◌++◌, ltb, leb, length,
  if◌then◌else◌,
}
use bfbt.Config.ExitRules.{ExitRule, ExitAction, TriggerPrice, FillModel}
use bfbt.Contracts.{EventPriority, to_int}
use bfbt.Dict.{Dict, lookup, contains, insert, all_items, sort, union_size}
use bfbt.Exec.{Result, ok, err, ◌>>=◌, ◌>>◌, pure, lift, gets, or_raise, raise_if, modify}
use bfbt.Float.{Float, fmax, fmin}
use bfbt.Risk.State.{
  Direction, EventType, RiskError, RiskPosition, Cooldown, Pending, RiskState, Machine, Frame,
  BarRow, PositionInput, PositionRow, Snapshot, RiskEvent, Method,
}
use bfbt.Risk.Input.{read_bars, position_rows}
use bfbt.Risk.Trigger.{
  Hit, PortfolioHit, symbol_trigger, portfolio_trigger, level_of, by_direction, LevelKind,
}
use bfbt.Risk.Book.{
  sync_positions, queue, activate_cooldown, expire_cooldowns, next_event_id, update_extremes,
}
use bfbt.Risk.Checkpoint.{RiskCheckpoint, checkpoint}
unfoldable pub use bfbt.Risk.Evaluate.Symbols.{
  exhausted, is_stop, set_pending, fraction_of, count_trigger, reference_price, symbol_intent,
  symbol_event, fire_symbol, fire_if_hit, check_symbol, evaluate_symbol, evaluate_symbols,
}
unfoldable pub use bfbt.Risk.Evaluate.Portfolio.{
  portfolio_intent, close_one, close_all, fire_portfolio,
}
pub use bfbt.Risk.Evaluate.Rows.{StateRow}
unfoldable pub use bfbt.Risk.Evaluate.Rows.{state_row, state_rows}

pub record RiskEvaluation (F : Type 0) : Type 0 where
  pub events : List (RiskEvent F)
  pub state : List (StateRow F)
  pub pending_intents : List (ℕ × Pending F)
  pub saved : RiskCheckpoint F

abbrev pub same_price : TriggerPrice → TriggerPrice → Bool
same_price TriggerPrice.trade TriggerPrice.trade = true
same_price TriggerPrice.mark TriggerPrice.mark = true
same_price _ _ = false

module _ {F : Type 0} where
  -- `_check_pending_budget`
  unfoldable pub check_pending_budget : Machine F → Method F Unit
  check_pending_budget m s =
      raise_if (ltb m.max_pending_risk_intents (length s.pending)) RiskError.pending_exceeded s

  -- `_check_state_budget`, which nothing calls.
  unfoldable pub check_state_budget : Machine F → Method F Unit
  check_state_budget m s =
      raise_if (ltb m.max_risk_state_rows (union_size s.positions s.cooldowns))
        RiskError.risk_rows_exceeded s

module _ {F : Type 0} ⦃f : Float F⦄ where
  -- `if portfolio_trigger is not None and position_rows: … else: …`
  unfoldable pub fire_events :
      Machine F
      → Snapshot F
      → F
      → Dict (PositionRow F)
      → Option (PortfolioHit F)
      → Method F (List (RiskEvent F))
  fire_events m snap equity [] trigger = evaluate_symbols m snap []
  fire_events m snap equity (e ∷ rows) none = evaluate_symbols m snap (sort (e ∷ rows))
  fire_events m snap equity (e ∷ rows) (some hit) =
      fire_portfolio m snap.closed_at equity (e ∷ rows) hit

  -- The guards of `evaluate` up to `_sync_positions`, with what they write.
  unfoldable pub admit :
      Machine F
      → Frame (BarRow F)
      → Frame (PositionInput F)
      → F
      → TriggerPrice
      → Method F (Snapshot F × Dict (PositionRow F))
  admit m bars positions equity source = do
    raise_if (not (same_price source m.config.trigger_price)) RiskError.price_source_mismatch
    raise_if (not (f.is_finite equity) || f.le equity f.nought) RiskError.bad_equity
    snap ← lift (read_bars m bars (← gets (λ s. s.last_close_time)))
    pending ← gets (λ s. s.pending)
    raise_if (not (all_items (λ _ item. not (leb item.fill_time snap.opened_at)) pending))
        RiskError.undrained_intents
    rows ← lift (position_rows positions)
    modify (λ s. record s {
      cooldowns = expire_cooldowns m.config.reentry_policy s.evaluation_count rows s.cooldowns;
    })
    raise_if (not (all_items (λ k _. contains k snap.bars) rows)) RiskError.missing_position_bars
    cooldowns ← gets (λ s. s.cooldowns)
    raise_if (ltb m.max_risk_state_rows (union_size rows cooldowns)) RiskError.risk_rows_exceeded
    modify (λ s. record s { positions = sync_positions rows s.positions })
    pure (snap, rows)

  -- What `evaluate` writes when all events have been queued.
  unfoldable pub advance : Snapshot F → F → RiskState F → RiskState F
  advance snap equity s = record s {
    portfolio_peak_equity = fmax s.portfolio_peak_equity equity;
    last_open_time = some snap.opened_at;
    last_close_time = some snap.closed_at;
    evaluation_count = s.evaluation_count + 1;
  }

  unfoldable pub widen_positions : Snapshot F → Method F Unit
  unfolding update_extremes
  widen_positions snap s =
      let (r, d) = update_extremes snap.bars s.positions in (r, record s { positions = d })

  -- What `evaluate` does when its events are known.
  unfoldable pub settle :
      Machine F → Snapshot F → F → List (RiskEvent F) → Method F (RiskEvaluation F)
  unfolding widen_positions advance check_pending_budget
  settle m snap equity events = do
    check_pending_budget m
    widen_positions snap
    modify (advance snap equity)
    s ← gets (λ s. s)
    rows ← lift (state_rows m snap.closed_at s.cooldowns (sort s.positions))
    pure (record {
      events = events;
      state = rows;
      pending_intents = (checkpoint s).pending_intents;
      saved = checkpoint s;
    })

  -- `evaluate`
  unfoldable pub evaluate :
      Machine F
      → Frame (BarRow F)
      → Frame (PositionInput F)
      → F
      → TriggerPrice
      → Method F (RiskEvaluation F)
  unfolding admit settle
  evaluate m bars positions equity source = do
    (snap, rows) ← admit m bars positions equity source
    peak ← gets (λ s. s.portfolio_peak_equity)
    events ← fire_events m snap equity rows (portfolio_trigger m peak equity)
    settle m snap equity events
