-- ===== src/Tests/Position.antt =====
-- A position engine with a fixed notional that buys two symbols.
use bfbt.Base.{
  ℕ, ◌+◌, ◌*◌, ◌≡◌, refl, Bool, true, false, none, some, [], ◌∷◌, arith, place_by, sort_by,
}
use bfbt.Config.Sizing.{
  SizingMode, ReversePolicy, PositionSizing, PortfolioConstraints, HoldingMode, ExistingSignal,
  validate_mode_fields,
}
use bfbt.Contracts.{ReasonCode}
use bfbt.Dict.Sorted.{IsSorted}
use bfbt.Dict.{Dict, SameItems, all_items, lookup, union_size, filter_items, insert, place, sort}
use bfbt.Position.Value.{
  price_of, validate_marks, notionals, position_pnl, unrealized, gross_of, net_of, account_value,
  position_row, position_rows,
}
use bfbt.Costs.{updated_average_entry}
use bfbt.Exec.{Result, ok, err}
use bfbt.Rank.Row.{Side}
use bfbt.Position.State.{
  Position, Account, Engine, checkpoint, initial, is_sound, check_rolling, restore, create_engine,
}
use bfbt.Position.Execute.{
  sign_of, realized, adds_after, settle_rolling_round, traded_quantity, track_round, place_position,
  track_rolling, fill, execute,
}
use bfbt.Position.Limit.{
  exceeds, post_notionals, constraint_violations, limit_close_turnover, bisect, opening_violations,
  is_add_rejected, scaled_opening, limit_opening,
}
use bfbt.Position.Legs.{
  SelectionRow, Selection, is_long, is_target, assert_some, base_notional, reverse_legs,
  plan_increment, plan_of, round_delta,
}
use bfbt.Position.Selections.{
  InstructionBatch, SelectionFrame, is_stale, check_rows, selection_rows, possible_symbols,
  has_zero_positions, check_batch,
}
use bfbt.Position.Process.{
  instruction_row, notional_of, constrain, trade_legs, follow_plan, process_one,
}
use bfbt.Position.Batch.{no_totals, add_totals, process_rows, replace_held, process_batch, process}
use bfbt.Position.Kept.{IsKept}
use bfbt.Position.Reach.{Step, Reachable, Reachable-IsKept}
use bfbt.Position.Safe.{
  NeverAsserts, plan_of-NeverAsserts, IsSettled, settle_rolling_round-IsSettled,
}
use bfbt.Position.Bisect.{IsLimited, limit_opening-IsLimited}
use bfbt.Position.Numbered.{IsNumbered, process-IsNumbered}
use bfbt.Position.Saved.{restore-checkpoint}
use bfbt.Tests.Fixed.{fixed_float, fixed_math, Fixed, plus, fixed-IsTotal, fixed-HasZero}

abbrev fixed_notional_sizing : PositionSizing Fixed
fixed_notional_sizing = record {
  mode = SizingMode.fixed_notional;
  weighting = none;
  target_gross_exposure = none;
  target_net_exposure = none;
  margin_amount = none;
  notional_amount = some (plus 50000);
  fraction = none;
  reverse_policy = some ReversePolicy.flatten_then_open;
  zero_position_policy = none;
  bootstrap_notional_amount = none;
  rolling_initial_margin = none;
  rolling_reset_margin = none;
  rolling_min_margin = none;
  rolling_max_margin = none;
}

-- Between 50 and 200, with 100 to start from.
abbrev rolling_sizing : PositionSizing Fixed
rolling_sizing = record fixed_notional_sizing {
  mode = SizingMode.rolling_margin;
  notional_amount = none;
  rolling_initial_margin = some (plus 10000);
  rolling_reset_margin = some (plus 10000);
  rolling_min_margin = some (plus 5000);
  rolling_max_margin = some (plus 20000);
}

abbrev no_constraints : PortfolioConstraints Fixed
no_constraints = record {
  max_gross_exposure = none;
  max_net_exposure = none;
  max_symbol_weight = none;
  max_symbol_notional = some (plus 30000);
  max_consecutive_adds = none;
  max_turnover = none;
}

abbrev engine_of : PositionSizing Fixed → Engine Fixed
engine_of sizing = record {
  sizing = sizing;
  constraints = no_constraints;
  holding = record { mode = HoldingMode.independent; existing_signal = ExistingSignal.add_signal };
  capital = record { initial_equity = plus 1000000; reserved_cost_buffer = plus 0 };
  leverage = plus 100;
  fee_rate = plus 0;
  slippage_rate = plus 0;
  quantity_steps = [];
  run_id = 1;
  max_position_state_rows = 5;
  max_pending_instructions = 5;
  is_explicit = λ n. true;
  is_named = λ n. true;
  digest = λ i. i.sequence * 1000 + i.symbol;
}

abbrev engine : Engine Fixed
engine = engine_of fixed_notional_sizing

abbrev at_prices : Dict Fixed
at_prices = (3, plus 1000) ∷ (4, plus 2000) ∷ []

abbrev buy : ℕ → SelectionRow Fixed
buy symbol = record {
  signal_time = some 10;
  symbol = symbol;
  side = some Side.long;
  rank_source_time = none;
  target_weight = none;
}

abbrev two_buys : SelectionFrame Fixed
two_buys = record {
  has_columns = true;
  has_signal_time = true;
  has_target_weight = false;
  rows = buy 4 ∷ buy 3 ∷ [];
}

abbrev start : Account Fixed
start = initial engine

abbrev is_ok : {E A : Type 0} → Result E A → Bool
is_ok (ok a) = true
is_ok (err e) = false

-- The value of a call that returns.
abbrev returned : {E A : Type 0} (r : Result E A) → is_ok r ≡ true → A
returned (ok a) h = a
returned (err e) h = cc

returned-eq :
    {E S A : Type 0} (r : Result E A × S) (h : is_ok r.0 ≡ true) → r ≡ (ok (returned r.0 h), r.1)
returned-eq (ok a, s) h = refl
returned-eq (err e, s) h = cc

abbrev bought : Account Fixed
bought = (process engine 10 true at_prices two_buys start).1

buys_return : is_ok (process engine 10 true at_prices two_buys start).0 ≡ true
unfolding process initial validate_marks all_items selection_rows is_target sort_by place_by
    check_batch lookup union_size filter_items process_batch account_value replace_held process_rows
    process_one plan_of notional_of updated_average_entry insert place sort add_totals no_totals
    adds_after execute fill place_position realized sign_of track_rolling track_round
    traded_quantity assert_some base_notional is_long plan_increment reverse_legs round_delta
    constraint_violations exceeds is_add_rejected limit_close_turnover limit_opening
    opening_violations post_notionals scaled_opening bisect constrain follow_plan instruction_row
    trade_legs check_rows has_zero_positions is_stale possible_symbols checkpoint gross_of net_of
    notionals position_pnl position_row position_rows price_of unrealized
buys_return = refl

abbrev bought_batch : InstructionBatch Fixed
bought_batch = returned (process engine 10 true at_prices two_buys start).0 buys_return

bought_lem : process engine 10 true at_prices two_buys start ≡ (ok bought_batch, bought)
bought_lem = returned-eq (process engine 10 true at_prices two_buys start) buys_return

process-IsNumbered_example :
    (is_stale start.last_decision_time 10 ≡ false)
    × IsNumbered engine 10 start.sequence bought_batch bought
process-IsNumbered_example = process-IsNumbered engine 10 true at_prices two_buys start bought_lem

start-Reachable : Reachable engine start
unfolding create_engine
start-Reachable = Reachable.opened none refl

Reachable-IsKept_example : IsKept bought
Reachable-IsKept_example =
    Reachable-IsKept engine
      (Reachable.after start-Reachable (Step.processed 10 true at_prices two_buys))

-- The limit of 300 for a symbol cuts the 500 that are asked for.
cut_lem :
    limit_opening engine at_prices (plus 1000000) (plus 0) (plus 0) start 3 (plus 0) (plus 50000)
    ≡ (plus 30000, ReasonCode.scaled_max_symbol_notional ∷ [])
unfolding limit_opening lookup initial unrealized gross_of net_of insert notionals
cut_lem = refl

limit_opening-IsLimited_example :
    IsLimited
      (opening_violations engine at_prices (plus 1000000) (plus 0) (plus 0) start 3 (plus 0))
      (plus 50000)
      (limit_opening engine at_prices
        (plus 1000000)
        (plus 0)
        (plus 0)
        start
        3
        (plus 0)
        (plus 50000))
limit_opening-IsLimited_example =
    limit_opening-IsLimited ⦃z = fixed-HasZero⦄ engine at_prices (plus 1000000) (plus 0) (plus 0)
      start 3 (plus 0) (plus 50000) refl

abbrev buy_three : Selection Fixed
buy_three = record { symbol = 3; side = Side.long; rank_source_time = none; target_weight = none }

plan_of-NeverAsserts_example : NeverAsserts (plan_of engine start buy_three (plus 0) (plus 1000000))
unfolding validate_mode_fields
plan_of-NeverAsserts_example =
    plan_of-NeverAsserts engine start buy_three (plus 0) (plus 1000000) refl
      (λ h. absurd (ground arith))

-- A round of 100 that gained 150 is above the maximum of 200.
abbrev gained : Account Fixed
gained = record (initial (engine_of rolling_sizing)) {
  rolling_active_margin = some (plus 10000);
  rolling_round_net_pnl = plus 15000;
}

abbrev settled : Account Fixed
settled = (settle_rolling_round (engine_of rolling_sizing) gained).1

settle_rolling_round-IsSettled_example :
    (low : Fixed) × (high : Fixed) × (margin : Fixed) × (some (plus 5000) ≡ some low)
    × (some (plus 20000) ≡ some high)
    × IsSettled low high margin gained settled
unfolding settle_rolling_round validate_mode_fields
settle_rolling_round-IsSettled_example =
    settle_rolling_round-IsSettled ⦃o = fixed-IsTotal⦄ (engine_of rolling_sizing) gained refl refl
      refl refl refl

restore-checkpoint_example :
    (d : Dict (Position Fixed)) × (restore engine (checkpoint bought)
      ≡ ok (record (bought) { positions = d }))
    × SameItems d bought.positions
    × IsSorted d
    × (checkpoint (record (bought) { positions = d }) ≡ checkpoint bought)
unfolding process initial validate_marks all_items selection_rows is_target sort_by place_by
    check_batch lookup union_size filter_items process_batch account_value replace_held process_rows
    process_one plan_of notional_of updated_average_entry insert place sort add_totals no_totals
    adds_after execute fill place_position realized sign_of track_rolling track_round
    traded_quantity assert_some base_notional is_long plan_increment reverse_legs round_delta
    constraint_violations exceeds is_add_rejected limit_close_turnover limit_opening
    opening_violations post_notionals scaled_opening bisect constrain follow_plan instruction_row
    trade_legs check_rows has_zero_positions is_stale possible_symbols checkpoint gross_of net_of
    notionals position_pnl position_row position_rows price_of unrealized is_sound check_rolling
restore-checkpoint_example =
    restore-checkpoint engine bought (refl, (refl, tt)) (refl, (refl, tt)) (omega arith) refl
