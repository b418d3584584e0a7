-- ===== src/Risk/Book.antt =====
-- The methods of `RiskStateMachine` that write its dicts: `_sync_positions`, `_queue`,
-- `_activate_cooldown`, `_update_extremes`, the expiry of cooldowns and `_event_id`.
use bfbt.Base.{
  ℕ, ◌+◌, Bool, true, false, not, ◌&&◌, Option, none, some, [], ◌∷◌, leb, if◌then◌else◌,
}
use bfbt.Config.ExitRules.{RiskConfig, ReentryPolicy}
use bfbt.Dict.{Dict, lookup, contains, insert, filter_items}
use bfbt.Exec.{Result, ok, err}
use bfbt.Float.{Float, fmax, fmin}
use bfbt.Risk.State.{
  Direction, EventType, RiskError, RiskPosition, Cooldown, Pending, RiskState, event, Machine,
  BarRow, PositionRow, Method,
}
use bfbt.Risk.Trigger.{by_direction}

abbrev pub same_direction : Direction → Direction → Bool
same_direction Direction.long Direction.long = true
same_direction Direction.short Direction.short = true
same_direction _ _ = false

-- `max(1, cooldown_bars)`
abbrev pub at_least_one : ℕ → ℕ
at_least_one n = if leb n 1 then 1 else n

module _ {F : Type 0} where
  -- `_RiskPosition(direction, average, average)`
  abbrev pub fresh : PositionRow F → RiskPosition F
  fresh row = record {
    direction = row.direction;
    average_entry_price = row.average_entry_price;
    favorable_extreme = row.average_entry_price;
    trigger_count = 0;
  }

  -- The position after one row of `_sync_positions`.
  unfoldable pub synced : PositionRow F → Option (RiskPosition F) → RiskPosition F
  synced row none = fresh row
  synced row (some p) =
      if same_direction p.direction row.direction
      then record p { average_entry_price = row.average_entry_price }
      else fresh row

  unfoldable pub sync_rows : Dict (PositionRow F) → Dict (RiskPosition F) → Dict (RiskPosition F)
  unfolding synced
  sync_rows [] d = d
  sync_rows (e ∷ rows) d = sync_rows rows (insert e.0 (synced e.1 (lookup e.0 d)) d)

  -- `_sync_positions`
  unfoldable pub sync_positions :
      Dict (PositionRow F) → Dict (RiskPosition F) → Dict (RiskPosition F)
  unfolding sync_rows
  sync_positions rows d = sync_rows rows (filter_items (λ k _. contains k rows) d)

  -- `_queue`: an intent of the same or a lower priority number stays.
  unfoldable pub queue : Pending F → Dict (Pending F) → Dict (Pending F)
  queue item d = elim (lookup item.symbol d) [
    | none ↦ insert item.symbol item d
    | some old ↦ if leb old.priority item.priority then d else insert item.symbol item d
  ]

  -- The cooldown that `_activate_cooldown` sets.
  unfoldable pub cooldown_from : RiskConfig F → ℕ → Cooldown
  cooldown_from c count = record {
    trigger_index = count + 1;
    release_index = count + 1 + at_least_one c.cooldown_bars;
  }

  -- `_activate_cooldown`
  unfoldable pub activate_cooldown : Machine F → ℕ → RiskState F → RiskState F
  unfolding cooldown_from
  activate_cooldown m symbol s = record s {
    cooldowns = insert symbol (cooldown_from m.config s.evaluation_count) s.cooldowns;
  }

  -- The expiry at the head of `evaluate`: of symbols that are no longer held.
  unfoldable pub expire_cooldowns :
      ReentryPolicy → ℕ → Dict (PositionRow F) → Dict Cooldown → Dict Cooldown
  expire_cooldowns ReentryPolicy.next_scheduled_rebalance count rows d = d
  expire_cooldowns ReentryPolicy.after_cooldown count rows d =
      filter_items (λ k c. not (leb c.release_index count && not (contains k rows))) d

  -- `_event_id`
  unfoldable pub next_event_id : Machine F → ℕ → Option ℕ → EventType → Method F ℕ
  next_event_id m time symbol kind s =
      let sequence = s.sequence + 1 in
      (ok (m.digest (event sequence time symbol kind)), record s { sequence = sequence })

module _ {F : Type 0} ⦃f : Float F⦄ where
  -- One position of `_update_extremes`.
  unfoldable pub widen : BarRow F → RiskPosition F → RiskPosition F
  widen bar p = record p {
    favorable_extreme =
        by_direction p.direction (fmax p.favorable_extreme bar.high)
          (fmin p.favorable_extreme bar.low);
  }

  -- `_update_extremes`: a missing bar raises, and the positions before it are written.
  unfoldable pub update_extremes :
      Dict (BarRow F) → Dict (RiskPosition F) → Result RiskError Unit × Dict (RiskPosition F)
  unfolding widen
  update_extremes bars [] = (ok tt, [])
  update_extremes bars (e ∷ d) =
      let (r, d') = update_extremes bars d in
      elim (lookup e.0 bars) [
        | none ↦ (err RiskError.missing_bar, e ∷ d)
        | some bar ↦ (r, (e.0, widen bar e.1) ∷ d')
      ]
