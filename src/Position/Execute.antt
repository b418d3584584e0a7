-- ===== src/Position/Execute.antt =====
-- `_execute`, `_settle_rolling_round` and `apply_cashflow`: what changes cash and positions.
use bfbt.Base.{ℕ, ◌+◌, Bool, false, not, ◌&&◌, ◌||◌, Option, none, some, if◌then◌else◌, is_some}
use bfbt.Costs.{updated_average_entry}
use bfbt.Dict.{Dict, lookup, contains, insert, erase}
use bfbt.Exec.{ok, err, continue, ◌>>=◌, ◌>>◌, gets, modify, raise_if, or_raise}
use bfbt.Float.{Float, FloatMath, fmin}
use bfbt.Position.State.{PositionError, Position, ResetReason, Engine, Method, is_rolling}

unfoldable pub count_reset : Option ResetReason → ℕ → ℕ
count_reset none n = n
count_reset (some r) n = n + 1

module _ {F : Type 0} ⦃f : Float F⦄ where
  -- `1.0 if x > 0 else -1.0`
  unfoldable pub sign_of : F → F
  sign_of x = if f.lt f.nought x then f.unit else f.neg f.unit

  -- `0.0 if old is None else old.quantity`
  abbrev pub quantity_of : Option (Position F) → F
  quantity_of none = f.nought
  quantity_of (some p) = p.quantity

  abbrev pub average_of : Option (Position F) → Option F
  average_of none = none
  average_of (some p) = some p.average_entry_price

  -- `old is not None and old_quantity * delta_quantity < 0`
  abbrev pub is_against : Option (Position F) → F → Bool
  is_against none delta = false
  is_against (some p) delta = f.lt (f.mul p.quantity delta) f.nought

  -- The profit of the quantity that a trade closes.
  unfoldable pub realized : Option (Position F) → (delta price : F) → F
  unfolding sign_of
  realized none delta price = f.nought
  realized (some p) delta price =
      if is_against (some p) delta
      then f.mul (f.mul (fmin (f.abs p.quantity) (f.abs delta)) (f.sub price p.average_entry_price))
          (sign_of p.quantity)
      else f.nought

  -- The consecutive adds after a trade to `new`.
  unfoldable pub adds_after : Option (Position F) → F → ℕ
  adds_after none new = 1
  adds_after (some p) new =
      if f.le (f.mul p.quantity new) f.nought
      then 1
      else if f.lt (f.add (f.abs p.quantity) f.epsilon) (f.abs new)
      then p.consecutive_adds + 1
      else p.consecutive_adds

  -- Below the minimum, above the maximum, or neither.
  unfoldable pub reset_reason : (low high candidate : F) → Option ResetReason
  reset_reason low high candidate =
      if f.lt candidate low
      then some ResetReason.below_min
      else if f.lt high candidate
      then some ResetReason.above_max
      else none

  -- The margin of the next round, and whether it is a reset.
  unfoldable pub settled_margin : (low high reset candidate : F) → F
  unfolding reset_reason
  settled_margin low high reset candidate =
      if is_some (reset_reason low high candidate) then reset else candidate

  -- The settlement of `active`; a reset is counted before the margin is tested.
  unfoldable pub settle_with : (active low high reset : F) → Method F Unit
  unfolding settled_margin count_reset reset_reason
  settle_with active low high reset s =
      let candidate = f.add active s.rolling_round_net_pnl in
      let reason = reset_reason low high candidate in
      let margin = settled_margin low high reset candidate in
      let counted = record s { rolling_reset_count = count_reset reason s.rolling_reset_count } in
      if not (f.is_finite margin) || f.le margin f.nought
      then (err PositionError.invalid_margin, counted)
      else (
        ok tt,
        record counted {
          rolling_margin = some margin;
          rolling_active_margin = none;
          rolling_round_net_pnl = f.nought;
          rolling_last_reset_reason = reason;
        },
      )

  -- `_settle_rolling_round`
  unfoldable pub settle_rolling_round : Engine F → Method F Unit
  unfolding settle_with
  settle_rolling_round e = do
    s ← gets (λ s. s)
    active ← or_raise s.rolling_active_margin PositionError.no_active_margin
    low ← or_raise e.sizing.rolling_min_margin PositionError.assertion
    high ← or_raise e.sizing.rolling_max_margin PositionError.assertion
    reset ← or_raise e.sizing.rolling_reset_margin PositionError.assertion
    settle_with active low high reset

  abbrev pub is_held : Option ℕ → Dict (Position F) → Bool
  is_held none d = false
  is_held (some k) d = contains k d

  -- `apply_cashflow`; no symbol is none.
  unfoldable pub apply_cashflow : Engine F → F → Option ℕ → Method F Unit
  apply_cashflow e amount symbol = do
    raise_if (not (f.is_finite amount)) PositionError.infinite_cashflow
    s ← gets (λ s. s)
    let active = is_rolling e.sizing.mode && is_some s.rolling_active_margin
    raise_if (active && not (is_held symbol s.positions)) PositionError.unknown_cashflow_symbol
    modify (λ t. record t {
      cash_balance = f.add t.cash_balance amount;
      rolling_round_net_pnl =
          if active then f.add t.rolling_round_net_pnl amount else t.rolling_round_net_pnl;
    })

  module _ ⦃m : FloatMath F⦄ where
    -- `delta_quantity`: a delta that closes the position up to rounding closes all of it.
    unfoldable pub traded_quantity : Option (Position F) → (delta price : F) → F
    traded_quantity old delta price =
        if is_against old (m.div delta price)
          && m.is_close delta (f.mul (f.neg (quantity_of old)) price) m.relative_tolerance f.epsilon
        then f.neg (quantity_of old)
        else m.div delta price

    -- The rolling state after a fill.
    unfoldable pub track_round :
        Engine F → Option (Position F) → (new price gain fee slippage : F) → Method F Unit
    track_round e none new price gain fee slippage s =
        if f.lt f.epsilon (f.abs new)
        then (
          ok tt,
          record s {
            rolling_active_margin = some (m.div (f.abs (f.mul new price)) e.leverage);
            rolling_round_net_pnl = f.sub (f.neg fee) slippage;
            rolling_last_reset_reason = none;
          },
        )
        else (ok tt, s)
    track_round e (some p) new price gain fee slippage s =
        let t = record s {
          rolling_round_net_pnl = f.add s.rolling_round_net_pnl (f.sub (f.sub gain fee) slippage);
        } in
        if f.le (f.abs new) f.epsilon then settle_rolling_round e t else (ok tt, t)

    -- The positions after a fill at an average entry price, or at none.
    unfoldable pub place_position :
        ℕ → Option (Position F) → (new : F) → Option F → Dict (Position F) → Dict (Position F)
    unfolding adds_after
    place_position symbol old new none d = erase symbol d
    place_position symbol old new (some average) d =
        if f.le (f.abs new) f.epsilon
        then erase symbol d
        else insert symbol
            (record {
              quantity = new;
              average_entry_price = average;
              consecutive_adds = adds_after old new;
            })
            d

    -- The rolling state is kept in its mode alone.
    unfoldable pub track_rolling :
        Engine F → Option (Position F) → (new price gain fee slippage : F) → Method F Unit
    unfolding track_round
    track_rolling e old new price gain fee slippage s =
        if is_rolling e.sizing.mode
        then track_round e old new price gain fee slippage s
        else (ok tt, s)

    -- The part of `_execute` that changes the state.
    unfoldable pub fill :
        Engine F → ℕ → Option (Position F) → (delta traded new price : F) → Method F (F × F)
    unfolding realized track_rolling place_position
    fill e symbol old delta traded new price s =
        let gain = realized old traded price in
        let fee = f.mul (f.abs delta) e.fee_rate in
        let slippage = f.mul (f.abs delta) e.slippage_rate in
        let average = updated_average_entry (quantity_of old) new (average_of old) price in
        continue
          (track_rolling e old new price gain fee slippage
            (record s { cash_balance = f.add s.cash_balance (f.sub (f.sub gain fee) slippage) }))
          (λ u t. (
            ok (fee, slippage),
            record t { positions = place_position symbol old new average t.positions },
          ))

    -- `_execute`; the fee and the slippage come back.
    unfoldable pub execute : Engine F → ℕ → (delta price : F) → Method F (F × F)
    unfolding traded_quantity fill
    execute e symbol delta price s =
        let old = lookup symbol s.positions in
        let traded = traded_quantity old delta price in
        let new = f.add (quantity_of old) traded in
        if f.le (f.abs delta) f.epsilon
        then (ok (f.nought, f.nought), s)
        else if is_rolling e.sizing.mode
            && is_some old
            && f.lt (f.mul (quantity_of old) new) (f.neg f.epsilon)
        then (err PositionError.atomic_reversal, s)
        else fill e symbol old delta traded new price s
