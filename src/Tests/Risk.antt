-- ===== src/Tests/Risk.antt =====
-- A session of the risk machine on one symbol, and what it shows of each theorem's hypotheses.
use bfbt.Base.{
  ℕ, ◌+◌, ◌*◌, ◌≡◌, refl, true, false, not, none, some, [], ◌∷◌, map, ◌==◌, ◌⊎◌, Option, is_some,
  length,
}
use Prim.Native.Nat.{ℕ, ◌+◌, ◌*◌}
use bfbt.Exec.Laws.{Returns}
use mathlib.Core.Path.{◌≡◌, refl}
use mathlib.Core.List.{[], ◌∷◌, map}
use mathlib.Core.Option.{none, some}
use mathlib.Core.Bool.{true, false, not}
use bfbt.Config.ExitRules.{
  ExitAction, ExitRule, TriggerPrice, FillModel, ConflictPolicy, ReentryPolicy, RiskConfig,
  validate_rule,
}
use bfbt.Dict.{Dict, lookup, contains, insert, filter_items, all_items, sort, keep_if, union_size}
use bfbt.Exec.{Result, ok, err}
use bfbt.Float.{fmax}
use bfbt.Risk.State.{
  RiskError, Pending, Direction, EventType, RiskPosition, PositionRow, RiskState, Machine, Frame,
  BarRow, PositionInput, Identity,
}
use bfbt.Risk.Input.{is_gap, read_bars, position_rows}
use bfbt.Risk.Book.{sync_positions, queue, cooldown_from, expire_cooldowns}
use bfbt.Risk.Trigger.{
  Hit, PortfolioHit, trailing_active, reaches_target, best_price, in_favor, distance_of, against,
  worst_price, reaches_stop, stop_loss_hits, trailing_hits, take_profit_hits, symbol_hits,
  symbol_trigger, portfolio_trigger, level_of,
}
use bfbt.Risk.Evaluate.{
  RiskEvaluation, fire_events, evaluate, exhausted, fraction_of, symbol_intent, fire_symbol,
  evaluate_symbol, evaluate_symbols, fire_portfolio, state_rows,
}
use bfbt.Risk.Checkpoint.{initial}
use bfbt.Risk.Session.{Step, Reachable, Reachable-IsValid, drain_due_exact}
use bfbt.Risk.Fill.{
  RiskFillBatch, due_at, fill_price, requested_delta, fill_one, fill_all, drain_due,
}
use bfbt.Risk.Drain.{IsDueOrder, row_key, item_key}
use bfbt.Risk.Invariant.{IsValid}
use bfbt.Risk.Contested.{is_contested, is_reached, symbol_trigger_contested}
use bfbt.Risk.Outcome.{evaluate_advances, evaluate_tracks}
use bfbt.Risk.Exits.{evaluate_closes_all}
use bfbt.Risk.Numbers.{IsNumbered, evaluate_numbers_events}
use bfbt.Risk.Choice.{
  IsValidated, validate_rule_sound, symbol_trigger-Returns, symbol_trigger_prefers_stop,
}
use bfbt.Contracts.{EventPriority, to_int, ReasonCode}
use bfbt.Tests.Fixed.{Fixed, plus, minus, fixed_float}

abbrev no_rule : ExitRule Fixed
no_rule = record {
  enabled = false;
  distance = none;
  long_distance = none;
  short_distance = none;
  action = ExitAction.close_position;
  fraction = none;
  activation_distance = none;
}

abbrev tenth : ExitRule Fixed
tenth = record (no_rule) { enabled = true; distance = some (plus 10) }

abbrev config : RiskConfig Fixed
config = record {
  interval_seconds = 60;
  trigger_price = TriggerPrice.trade;
  fill_model = FillModel.next_bar_open;
  intrabar_conflict = ConflictPolicy.worst_case;
  symbol_exits = record { stop_loss = tenth; take_profit = tenth; trailing_stop = no_rule };
  portfolio_exits = record { stop_loss = none; take_profit = none; max_drawdown = some (plus 20) };
  cooldown_bars = 2;
  reentry_policy = ReentryPolicy.after_cooldown;
  max_triggers_per_symbol = some 3;
}

abbrev number : Identity → ℕ
number (Identity.event n closed symbol kind) = n
number (Identity.instruction id n time) = 100 + n

abbrev machine : Machine Fixed
machine = record {
  config = config;
  initial_equity = plus 100000;
  run_id = 1;
  max_risk_state_rows = 4;
  max_pending_risk_intents = 4;
  digest = number;
}

-- A bar of symbol 7 that falls through the stop-loss level of 90.
abbrev falling : Frame (BarRow Fixed)
falling = record {
  has_columns = true;
  rows =
      record {
        open_time = 0;
        close_time = 60000;
        symbol = 7;
        open_price = plus 10000;
        high = plus 11500;
        low = plus 8000;
        close_price = plus 8500;
        is_complete = true;
      }
      ∷ [];
}

abbrev holding : Frame (PositionInput Fixed)
holding = record {
  has_columns = true;
  rows = record { symbol = 7; quantity = plus 200; average_entry_price = plus 10000 } ∷ [];
}

abbrev start : RiskState Fixed
start = initial machine.initial_equity

abbrev evaluated : Result RiskError (RiskEvaluation Fixed) × RiskState Fixed
evaluated = evaluate machine falling holding (plus 100000) TriggerPrice.trade start

abbrev stopped : RiskState Fixed
stopped = evaluated.1

run_stops : (r : RiskEvaluation Fixed) × (evaluated ≡ (ok r, stopped))
unfolding evaluate read_bars position_rows expire_cooldowns all_items lookup insert union_size
    filter_items sort sync_positions fire_events evaluate_symbols evaluate_symbol exhausted
    symbol_trigger symbol_hits stop_loss_hits trailing_hits take_profit_hits fire_symbol queue
    state_rows level_of portfolio_trigger initial
run_stops = (_, refl)

-- The same bar at an equity that has lost a third of its peak.
abbrev closed_out : RiskState Fixed
closed_out = (evaluate machine falling holding (plus 66666) TriggerPrice.trade start).1

run_closes_out :
    (r : RiskEvaluation Fixed) × (evaluate machine falling holding
        (plus 66666)
        TriggerPrice.trade
        start
      ≡ (ok r, closed_out))
unfolding evaluate read_bars position_rows expire_cooldowns all_items lookup insert union_size
    filter_items sort sync_positions fire_events evaluate_symbols evaluate_symbol exhausted
    symbol_trigger symbol_hits stop_loss_hits trailing_hits take_profit_hits fire_symbol queue
    state_rows level_of portfolio_trigger initial fire_portfolio
run_closes_out = (_, refl)

-- The intent fills at the open of the next bar.
abbrev prices : Dict Fixed
prices = (7, plus 8400) ∷ []

abbrev filled : RiskState Fixed
filled = (drain_due machine 60000 true prices holding stopped).1

run_fills :
    (b : RiskFillBatch Fixed) × (drain_due machine 60000 true prices holding stopped
      ≡ (ok b, filled))
unfolding drain_due evaluate read_bars position_rows expire_cooldowns all_items lookup insert
    union_size filter_items sort sync_positions fire_events evaluate_symbols evaluate_symbol
    exhausted symbol_trigger symbol_hits stop_loss_hits trailing_hits take_profit_hits fire_symbol
    queue state_rows level_of portfolio_trigger initial due_at fill_all fill_one fill_price
    requested_delta symbol_intent
run_fills = (_, refl)

fills_sell : map (λ row. row.requested_delta_notional) run_fills.0.instructions ≡ minus 16799 ∷ []
unfolding run_fills drain_due evaluate read_bars position_rows expire_cooldowns all_items lookup
    insert union_size filter_items sort sync_positions fire_events evaluate_symbols evaluate_symbol
    exhausted symbol_trigger symbol_hits stop_loss_hits trailing_hits take_profit_hits fire_symbol
    queue state_rows level_of portfolio_trigger initial due_at fill_all fill_one fill_price
    requested_delta symbol_intent
fills_sell = refl

started : IsValid machine start
started = Reachable-IsValid machine Reachable.created

Reachable-IsValid_example : IsValid machine stopped
Reachable-IsValid_example = Reachable-IsValid machine (
    Reachable.stepped Reachable.created
      (Step.evaluated falling holding (plus 100000) TriggerPrice.trade run_stops.0 run_stops.1))

drain_due_exact_example :
    (map row_key run_fills.0.instructions ≡ map item_key (due_at 60000 stopped.pending))
    × IsDueOrder (due_at 60000 stopped.pending)
    × ((k : ℕ)
        → lookup k filled.pending
          ≡ keep_if (λ item. not (item.fill_time == 60000)) (lookup k stopped.pending))
    × (filled ≡ record (stopped) {
      sequence = stopped.sequence + length run_fills.0.instructions;
      pending = filled.pending;
    })
drain_due_exact_example =
    drain_due_exact machine 60000 true prices holding stopped Reachable-IsValid_example run_fills.1

evaluate_advances_example :
    (start.pending ≡ [])
    × (stopped.evaluation_count ≡ start.evaluation_count + 1)
    × (stopped.portfolio_peak_equity ≡ fmax start.portfolio_peak_equity (plus 100000))
    × ((opened : ℕ) × (stopped.last_open_time ≡ some opened)
        × (stopped.last_close_time ≡ some (opened + 60 * 1000))
        × (is_gap start.last_close_time opened ≡ false))
evaluate_advances_example =
    evaluate_advances machine falling holding (plus 100000) TriggerPrice.trade start started
      run_stops.1

abbrev held_rows : Dict (PositionRow Fixed)
held_rows =
    (
      7,
      record { quantity = plus 200; average_entry_price = plus 10000; direction = Direction.long },
    )
    ∷ []

rows_read : position_rows holding ≡ ok held_rows
unfolding position_rows insert lookup
rows_read = refl

evaluate_tracks_example : contains 7 stopped.positions ≡ contains 7 held_rows
evaluate_tracks_example =
    evaluate_tracks machine falling holding (plus 100000) TriggerPrice.trade start 7 started
      run_stops.1 rows_read

holds_seven :
    lookup 7 held_rows
    ≡ some (record {
      quantity = plus 200;
      average_entry_price = plus 10000;
      direction = Direction.long;
    })
unfolding lookup
holds_seven = refl

abbrev drawdown : PortfolioHit Fixed
drawdown = record {
  event_type = EventType.portfolio_max_drawdown;
  reason = ReasonCode.portfolio_max_drawdown_triggered;
  level = plus 80000;
}

drawdown_hit : portfolio_trigger machine start.portfolio_peak_equity (plus 66666) ≡ some drawdown
unfolding portfolio_trigger initial
drawdown_hit = refl

evaluate_closes_all_example :
    (item : Pending Fixed) × (lookup 7 closed_out.pending ≡ some item)
    × (item.symbol ≡ 7)
    × (item.direction ≡ Direction.long)
    × (item.action ≡ ExitAction.close_position)
    × (item.reduce_fraction ≡ plus 100)
    × (item.reason_code ≡ ReasonCode.portfolio_max_drawdown_triggered)
    × (item.priority ≡ to_int EventPriority.portfolio_risk)
    × (closed_out.last_close_time ≡ some item.fill_time)
    × (lookup 7 closed_out.cooldowns ≡ some (cooldown_from config start.evaluation_count))
evaluate_closes_all_example =
    evaluate_closes_all machine falling holding (plus 66666) TriggerPrice.trade start
      {hit = drawdown} 7
      (record { quantity = plus 200; average_entry_price = plus 10000; direction = Direction.long })
      started run_closes_out.1 rows_read drawdown_hit holds_seven

evaluate_numbers_events_example :
    (closed : ℕ) × (stopped.last_close_time ≡ some closed)
    × IsNumbered machine closed start.sequence run_stops.0.events
    × (stopped.sequence ≡ start.sequence + length run_stops.0.events)
evaluate_numbers_events_example =
    evaluate_numbers_events machine falling holding (plus 100000) TriggerPrice.trade start
      run_stops.1

tenth_valid : validate_rule tenth ≡ ok tt
unfolding validate_rule
tenth_valid = refl

exits_valid : IsValidated config.symbol_exits
unfolding validate_rule
exits_valid = record { stop_loss = refl; trailing_stop = refl; take_profit = refl }

validate_rule_sound_example :
    (true ≡ true → (x : Fixed) × (distance_of tenth Direction.long ≡ ok x))
    × ((x : Fixed) × (fraction_of (plus 100) tenth ≡ ok x))
validate_rule_sound_example = validate_rule_sound tenth Direction.long (plus 100) tenth_valid

abbrev bought : RiskPosition Fixed
bought = record {
  direction = Direction.long;
  average_entry_price = plus 10000;
  favorable_extreme = plus 10000;
  trigger_count = 0;
}

-- It reaches the stop-loss level at 90 and the take-profit level at 110.
abbrev wide_bar : BarRow Fixed
wide_bar = record {
  open_time = 0;
  close_time = 60000;
  symbol = 7;
  open_price = plus 10000;
  high = plus 11500;
  low = plus 8000;
  close_price = plus 8500;
  is_complete = true;
}

symbol_trigger-Returns_example : Returns (symbol_trigger config bought wide_bar)
symbol_trigger-Returns_example = symbol_trigger-Returns config bought wide_bar exits_valid refl

tenth_distance : distance_of tenth Direction.long ≡ ok (plus 10)
unfolding distance_of
tenth_distance = refl

stop_reached :
    reaches_stop Direction.long
      (worst_price Direction.long wide_bar)
      (against Direction.long (plus 10000) (plus 10))
    ≡ true
unfolding reaches_stop worst_price against
stop_reached = refl

symbol_trigger_prefers_stop_example :
    (h : Hit Fixed) × (symbol_trigger config bought wide_bar ≡ ok (some h))
    × (h.event_type ≡ EventType.stop_loss)
    × (h.level ≡ against Direction.long (plus 10000) (plus 10))
    × (h.observed ≡ worst_price Direction.long wide_bar)
    × (h.reason ≡ ReasonCode.stop_loss_triggered)
symbol_trigger_prefers_stop_example =
    symbol_trigger_prefers_stop config bought wide_bar (plus 10) exits_valid refl refl
      tenth_distance stop_reached

abbrev strict : RiskConfig Fixed
strict = record (config) { intrabar_conflict = ConflictPolicy.error }

symbol_trigger_contested_example :
    ((is_contested strict.symbol_exits bought wide_bar ≡ true)
      × (symbol_trigger strict bought wide_bar ≡ err RiskError.conflicting_triggers))
    ⊎ ((is_contested strict.symbol_exits bought wide_bar ≡ false)
        × (hit : Option (Hit Fixed)) × (symbol_trigger strict bought wide_bar ≡ ok hit)
        × (is_some hit ≡ is_reached strict.symbol_exits bought wide_bar))
symbol_trigger_contested_example = symbol_trigger_contested strict bought wide_bar exits_valid refl

-- The bar does reach two levels.
wide_bar_contested : is_contested strict.symbol_exits bought wide_bar ≡ true
unfolding distance_of trailing_active reaches_stop reaches_target worst_price best_price against
    in_favor
wide_bar_contested = refl
