-- ===== src/Config/ExitRules.antt =====
-- `SymbolExitRuleConfig`, `SymbolExitsConfig`, `PortfolioExitsConfig` and `RiskV2Config` of
-- src/bfbt/config/backtest.py, with their validators. Fields of one legal value are left out, and
-- `evaluation_interval` is held as the seconds that `duration_seconds` gives for it.
use bfbt.Base.{ℕ, Bool, not, ◌&&◌, ◌||◌, Option, none, some, if◌then◌else◌, is_some}
use bfbt.Exec.{Result, ok, err}

pub data ExitAction : Type 0 where
  close_position reduce_fraction : ExitAction

pub record ExitRule (F : Type 0) : Type 0 where
  pub enabled : Bool
  pub distance : Option F
  pub long_distance : Option F
  pub short_distance : Option F
  pub action : ExitAction
  pub fraction : Option F
  pub activation_distance : Option F

pub record SymbolExits (F : Type 0) : Type 0 where
  pub stop_loss : ExitRule F
  pub take_profit : ExitRule F
  pub trailing_stop : ExitRule F

pub record PortfolioExits (F : Type 0) : Type 0 where
  pub stop_loss : Option F
  pub take_profit : Option F
  pub max_drawdown : Option F

pub data TriggerPrice : Type 0 where
  trade mark : TriggerPrice

pub data FillModel : Type 0 where
  next_bar_open same_bar_trigger : FillModel

pub data ConflictPolicy : Type 0 where
  worst_case error : ConflictPolicy

pub data ReentryPolicy : Type 0 where
  next_scheduled_rebalance after_cooldown : ReentryPolicy

pub record RiskConfig (F : Type 0) : Type 0 where
  pub interval_seconds : ℕ
  pub trigger_price : TriggerPrice
  pub fill_model : FillModel
  pub intrabar_conflict : ConflictPolicy
  pub symbol_exits : SymbolExits F
  pub portfolio_exits : PortfolioExits F
  pub cooldown_bars : ℕ
  pub reentry_policy : ReentryPolicy
  pub max_triggers_per_symbol : Option ℕ

pub data ConfigError : Type 0 where
  mixed_distances missing_distances missing_fraction unexpected_fraction : ConfigError
  misplaced_activation disabled_activation : ConfigError

module _ {F : Type 0} where
  check_fraction : ExitAction → Option F → Result ConfigError Unit
  check_fraction ExitAction.reduce_fraction none = err ConfigError.missing_fraction
  check_fraction ExitAction.reduce_fraction (some x) = ok tt
  check_fraction ExitAction.close_position (some x) = err ConfigError.unexpected_fraction
  check_fraction ExitAction.close_position none = ok tt

  -- `SymbolExitRuleConfig.validate_rule`
  unfoldable pub validate_rule : ExitRule F → Result ConfigError Unit
  unfolding check_fraction
  validate_rule r =
      if is_some r.distance && (is_some r.long_distance || is_some r.short_distance)
      then err ConfigError.mixed_distances
      else if r.enabled
          && not (is_some r.distance)
          && (not (is_some r.long_distance) || not (is_some r.short_distance))
      then err ConfigError.missing_distances
      else check_fraction r.action r.fraction

  -- `SymbolExitsConfig.validate_activation`
  unfoldable pub validate_activation : SymbolExits F → Result ConfigError Unit
  validate_activation e =
      if is_some e.stop_loss.activation_distance || is_some e.take_profit.activation_distance
      then err ConfigError.misplaced_activation
      else if is_some e.trailing_stop.activation_distance && not e.trailing_stop.enabled
      then err ConfigError.disabled_activation
      else ok tt
