-- ===== src/Risk/Evaluate/Portfolio.antt =====
-- The portfolio branch of `evaluate` in src/bfbt/risk/state_machine.py: one event closes all
-- positions.
use bfbt.Base.{ℕ, none, List, [], ◌∷◌, ltb}
use bfbt.Config.ExitRules.{ExitAction}
use bfbt.Contracts.{EventPriority, to_int}
use bfbt.Dict.{Dict, sort, union_size}
use bfbt.Exec.{◌>>=◌, ◌>>◌, pure, gets, raise_if, modify}
use bfbt.Float.{Float}
use bfbt.Risk.State.{RiskError, Pending, RiskState, Machine, PositionRow, RiskEvent, Method}
use bfbt.Risk.Trigger.{PortfolioHit}
use bfbt.Risk.Book.{queue, activate_cooldown, next_event_id}
use bfbt.Risk.Evaluate.Symbols.{set_pending}

module _ {F : Type 0} ⦃f : Float F⦄ where
  unfoldable pub portfolio_intent : ℕ → ℕ → PortfolioHit F → ℕ → PositionRow F → Pending F
  unfolding to_int
  portfolio_intent closed event_id hit symbol row = record {
    event_id = event_id;
    fill_time = closed;
    symbol = symbol;
    event_type = hit.event_type;
    direction = row.direction;
    action = ExitAction.close_position;
    reduce_fraction = f.unit;
    reference_price = none;
    reason_code = hit.reason;
    priority = to_int EventPriority.portfolio_risk;
  }

  unfoldable pub close_one :
      Machine F → ℕ → ℕ → PortfolioHit F → ℕ → PositionRow F → RiskState F → RiskState F
  unfolding set_pending activate_cooldown
  close_one m closed event_id hit symbol row s =
      activate_cooldown m symbol
        (set_pending (queue (portfolio_intent closed event_id hit symbol row)) s)

  -- The loop of the portfolio branch of `evaluate`.
  unfoldable pub close_all :
      Machine F → ℕ → ℕ → PortfolioHit F → Dict (PositionRow F) → RiskState F → RiskState F
  unfolding close_one
  close_all m closed event_id hit [] s = s
  close_all m closed event_id hit (e ∷ rows) s =
      close_all m closed event_id hit rows (close_one m closed event_id hit e.0 e.1 s)

  -- The portfolio branch of `evaluate`.
  unfoldable pub fire_portfolio :
      Machine F → ℕ → F → Dict (PositionRow F) → PortfolioHit F → Method F (List (RiskEvent F))
  unfolding close_all next_event_id
  fire_portfolio m closed equity rows hit = do
    pending ← gets (λ s. s.pending)
    raise_if (ltb m.max_pending_risk_intents (union_size pending rows)) RiskError.pending_exceeded
    event_id ← next_event_id m closed none hit.event_type
    modify (close_all m closed event_id hit (sort rows))
    pure (
        record {
          event_id = event_id;
          evaluation_time = closed;
          trigger_time = closed;
          symbol = none;
          event_type = hit.event_type;
          direction = none;
          entry_price = none;
          trigger_level = hit.level;
          observed_price = equity;
          conflict_policy = m.config.intrabar_conflict;
          action = ExitAction.close_position;
          fill_time = closed;
          reason_code = hit.reason;
          run_id = m.run_id;
        }
        ∷ [])
