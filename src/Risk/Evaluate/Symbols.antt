-- ===== src/Risk/Evaluate/Symbols.antt =====
-- The `else` loop of `evaluate` in src/bfbt/risk/state_machine.py: the triggers of one symbol
-- after another.
use bfbt.Base.{
  ℕ, ◌+◌, Bool, true, false, Option, none, some, List, [], ◌∷◌, ◌++◌, leb, if◌then◌else◌,
}
use bfbt.Config.ExitRules.{ExitRule, ExitAction, FillModel}
use bfbt.Contracts.{EventPriority, to_int}
use bfbt.Dict.{Dict, lookup, contains, insert}
use bfbt.Exec.{Result, ok, err, ◌>>=◌, ◌>>◌, pure, lift, or_raise, modify}
use bfbt.Float.{Float, fmax, fmin}
use bfbt.Risk.State.{
  Direction, EventType, RiskError, RiskPosition, Pending, RiskState, Machine, BarRow, PositionRow,
  Snapshot, RiskEvent, Method,
}
use bfbt.Risk.Trigger.{Hit, symbol_trigger, by_direction}
use bfbt.Risk.Book.{queue, activate_cooldown, next_event_id}

-- `maximum is not None and state.trigger_count >= maximum`
unfoldable pub exhausted : Option ℕ → ℕ → Bool
exhausted none count = false
exhausted (some maximum) count = leb maximum count

-- `event_type in {"stop_loss", "trailing_stop"}`
abbrev pub is_stop : EventType → Bool
is_stop EventType.stop_loss = true
is_stop EventType.trailing_stop = true
is_stop _ = false

module _ {F : Type 0} where
  unfoldable pub set_pending : (Dict (Pending F) → Dict (Pending F)) → RiskState F → RiskState F
  set_pending g s = record s { pending = g s.pending }

  -- `float(rule.reduce_fraction)` of a rule without one is a type error.
  unfoldable pub fraction_of : F → ExitRule F → Result RiskError F
  fraction_of one rule = elim rule.action [
    | ExitAction.close_position ↦ ok one
    | ExitAction.reduce_fraction ↦ elim rule.fraction [
      | none ↦ err RiskError.no_fraction
      | some x ↦ ok x
    ]
  ]

  -- `state.trigger_count += 1`
  unfoldable pub count_trigger : ℕ → RiskPosition F → RiskState F → RiskState F
  count_trigger symbol p s = record s {
    positions = insert symbol (record p { trigger_count = p.trigger_count + 1 }) s.positions;
  }

module _ {F : Type 0} ⦃f : Float F⦄ where
  -- The fill price of the `same_bar_trigger` model.
  unfoldable pub reference_price : FillModel → Hit F → Direction → BarRow F → Option F
  reference_price FillModel.next_bar_open hit d bar = none
  reference_price FillModel.same_bar_trigger hit d bar =
      if is_stop hit.event_type
      then some (by_direction d (fmin bar.open_price hit.level) (fmax bar.open_price hit.level))
      else some hit.level

  -- The intent and the event of a trigger of one symbol.
  unfoldable pub symbol_intent :
      Machine F → ℕ → ℕ → RiskPosition F → BarRow F → Hit F → ℕ → F → Pending F
  unfolding reference_price to_int
  symbol_intent m closed symbol p bar hit event_id fraction = record {
    event_id = event_id;
    fill_time = closed;
    symbol = symbol;
    event_type = hit.event_type;
    direction = p.direction;
    action = hit.rule.action;
    reduce_fraction = fraction;
    reference_price = reference_price m.config.fill_model hit p.direction bar;
    reason_code = hit.reason;
    priority = to_int EventPriority.symbol_risk;
  }

  unfoldable pub symbol_event : Machine F → ℕ → ℕ → RiskPosition F → Hit F → ℕ → RiskEvent F
  symbol_event m closed symbol p hit event_id = record {
    event_id = event_id;
    evaluation_time = closed;
    trigger_time = closed;
    symbol = some symbol;
    event_type = hit.event_type;
    direction = some p.direction;
    entry_price = some p.average_entry_price;
    trigger_level = hit.level;
    observed_price = hit.observed;
    conflict_policy = m.config.intrabar_conflict;
    action = hit.rule.action;
    fill_time = closed;
    reason_code = hit.reason;
    run_id = m.run_id;
  }

  -- What follows a trigger of one symbol: the event, the intent, the count and the cooldown.
  unfoldable pub fire_symbol :
      Machine F → ℕ → ℕ → RiskPosition F → BarRow F → Hit F → Method F (List (RiskEvent F))
  unfolding next_event_id fraction_of set_pending count_trigger activate_cooldown symbol_event
  fire_symbol m closed symbol p bar hit = do
    event_id ← next_event_id m closed (some symbol) hit.event_type
    fraction ← lift (fraction_of f.unit hit.rule)
    modify (set_pending (queue (symbol_intent m closed symbol p bar hit event_id fraction)))
    modify (count_trigger symbol p)
    modify (activate_cooldown m symbol)
    pure (symbol_event m closed symbol p hit event_id ∷ [])

  unfoldable pub fire_if_hit :
      Machine F → ℕ → ℕ → RiskPosition F → BarRow F → Option (Hit F) → Method F (List (RiskEvent F))
  fire_if_hit m closed symbol p bar none = pure []
  fire_if_hit m closed symbol p bar (some hit) = fire_symbol m closed symbol p bar hit

  unfoldable pub check_symbol :
      Machine F → Snapshot F → ℕ → RiskPosition F → Method F (List (RiskEvent F))
  unfolding fire_if_hit
  check_symbol m snap symbol p =
      if exhausted m.config.max_triggers_per_symbol p.trigger_count then pure [] else do
        bar ← or_raise (lookup symbol snap.bars) RiskError.unknown_symbol
        hit ← lift (symbol_trigger m.config p bar)
        fire_if_hit m snap.closed_at symbol p bar hit

  -- One symbol of the `else` loop of `evaluate`.
  unfoldable pub evaluate_symbol : Machine F → Snapshot F → ℕ → Method F (List (RiskEvent F))
  unfolding check_symbol
  evaluate_symbol m snap symbol s =
      if contains symbol s.pending then (ok [], s) else elim (lookup symbol s.positions) [
        | none ↦ (err RiskError.unknown_symbol, s)
        | some p ↦ check_symbol m snap symbol p s
      ]

  unfoldable pub evaluate_symbols :
      Machine F → Snapshot F → Dict (PositionRow F) → Method F (List (RiskEvent F))
  evaluate_symbols m snap [] = pure []
  evaluate_symbols m snap (e ∷ rows) = do
    events ← evaluate_symbol m snap e.0
    later ← evaluate_symbols m snap rows
    pure (events ++ later)
