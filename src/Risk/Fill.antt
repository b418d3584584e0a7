-- ===== src/Risk/Fill.antt =====
-- `drain_due`, `reentry_decision` and `finish`.
use bfbt.Base.{
  ℕ, ◌+◌, Bool, true, false, not, ◌&&◌, ◌||◌, Option, none, some, List, [], ◌∷◌, ltb, leb, ◌==◌,
  map, if◌then◌else◌,
}
use bfbt.Config.ExitRules.{ReentryPolicy}
use bfbt.Contracts.{ReasonCode}
use bfbt.Dict.{Dict, lookup, erase, all_items}
use bfbt.Exec.{ok, err, ◌>>=◌, ◌>>◌, pure, lift, gets, raise_if}
use bfbt.Float.{Float}
use bfbt.Risk.State.{
  RiskError, Cooldown, Pending, RiskState, instruction, Machine, Frame, PositionInput, PositionRow,
  Method,
}
use bfbt.Risk.Input.{position_rows}
use bfbt.Risk.Checkpoint.{RiskCheckpoint, checkpoint}

-- A row of `_FILL_SCHEMA`; the side and the mode of all rows are "FLAT" and "risk_reduce".
pub record FillRow (F : Type 0) : Type 0 where
  pub instruction_id : ℕ
  pub source_event_id : ℕ
  pub decision_time : ℕ
  pub fill_time : ℕ
  pub symbol : ℕ
  pub requested_delta_notional : F
  pub constrained_delta_notional : F
  pub reference_price : F
  pub reason_code : ReasonCode
  pub priority : ℕ
  pub run_id : ℕ

pub record RiskFillBatch (F : Type 0) : Type 0 where
  pub instructions : List (FillRow F)
  pub saved : RiskCheckpoint F

pub record ReentryDecision : Type 0 where
  pub symbol : ℕ
  pub allowed : Bool
  pub reason_code : ReasonCode
  pub release_index : Option ℕ

-- Whether a cooldown lets its symbol in again.
unfoldable pub reentry_allowed : ReentryPolicy → Bool → ℕ → Cooldown → Bool
reentry_allowed ReentryPolicy.next_scheduled_rebalance scheduled count c =
    scheduled && ltb c.trigger_index count
reentry_allowed ReentryPolicy.after_cooldown scheduled count c = leb c.release_index count

module _ {F : Type 0} where
  -- `(item.priority, item.symbol)` of the first is at most that of the second.
  unfoldable pub due_before : Pending F → Pending F → Bool
  due_before a b =
      if ltb a.priority b.priority
      then true
      else if ltb b.priority a.priority
      then false
      else leb a.symbol b.symbol

  unfoldable pub place_due : Pending F → List (Pending F) → List (Pending F)
  unfolding due_before
  place_due a [] = a ∷ []
  place_due a (b ∷ bs) = if due_before a b then a ∷ b ∷ bs else b ∷ place_due a bs

  -- `sorted((item for item in self._pending.values() if item.fill_time == open_time), key=…)`
  unfoldable pub due_at : ℕ → Dict (Pending F) → List (Pending F)
  unfolding place_due
  due_at time [] = []
  due_at time (e ∷ d) =
      let rest = due_at time d in if e.1.fill_time == time then place_due e.1 rest else rest

  -- `item.reference_price if … else opening_prices.get(item.symbol, nan)`; `none` is that nan.
  unfoldable pub fill_price : Dict F → Pending F → Option F
  fill_price prices item = elim item.reference_price [
    | none ↦ lookup item.symbol prices
    | some x ↦ some x
  ]

  -- `reentry_decision`
  unfoldable pub reentry_decision :
      Machine F → ℕ → Bool → RiskState F → ReentryDecision × RiskState F
  unfolding reentry_allowed
  reentry_decision m symbol scheduled s = elim (lookup symbol s.cooldowns) [
    | none ↦ (
      record {
        symbol = symbol;
        allowed = true;
        reason_code = ReasonCode.accepted;
        release_index = none;
      },
      s,
    )
    | some c ↦
        if reentry_allowed m.config.reentry_policy scheduled s.evaluation_count c
        then (
          record {
            symbol = symbol;
            allowed = true;
            reason_code = ReasonCode.accepted;
            release_index = some c.release_index;
          },
          record s { cooldowns = erase symbol s.cooldowns },
        )
        else (
          record {
            symbol = symbol;
            allowed = false;
            reason_code = ReasonCode.cooldown_active;
            release_index = some c.release_index;
          },
          s,
        )
  ]

  -- `finish`
  unfoldable pub finish : RiskState F → List (ℕ × Pending F)
  finish s =
      map (λ e. (e.0, record (e.1) { reason_code = ReasonCode.end_of_data_unfilled }))
        (checkpoint s).pending_intents

module _ {F : Type 0} ⦃f : Float F⦄ where
  -- `-quantity * price * reduce_fraction` of the held position, or nothing where it is gone.
  unfoldable pub requested_delta : Pending F → F → Option (PositionRow F) → F
  requested_delta item price none = f.nought
  requested_delta item price (some row) =
      f.mul (f.neg (f.mul row.quantity price)) item.reduce_fraction

  fill_reason : Pending F → Option (PositionRow F) → ReasonCode
  fill_reason item none = ReasonCode.suppressed_by_higher_priority
  fill_reason item (some row) = item.reason_code

  unusable : Option F → Bool
  unusable none = true
  unusable (some x) = not (f.is_finite x) || f.le x f.nought

  or_nought : Option F → F
  or_nought none = f.nought
  or_nought (some x) = x

  -- One round of the loop of `drain_due`.
  unfoldable pub fill_one :
      Machine F → ℕ → Dict F → Dict (PositionRow F) → Pending F → Method F (FillRow F)
  unfolding fill_price requested_delta fill_reason unusable or_nought
  fill_one m open_time prices rows item s =
      let price = or_nought (fill_price prices item) in
      let position = lookup item.symbol rows in
      let delta = requested_delta item price position in
      if unusable (fill_price prices item) then (err RiskError.missing_opening_price, s) else (
        ok (record {
          instruction_id = m.digest (instruction item.event_id (s.sequence + 1) open_time);
          source_event_id = item.event_id;
          decision_time = item.fill_time;
          fill_time = open_time;
          symbol = item.symbol;
          requested_delta_notional = delta;
          constrained_delta_notional = delta;
          reference_price = price;
          reason_code = fill_reason item position;
          priority = item.priority;
          run_id = m.run_id;
        }),
        record s { sequence = s.sequence + 1; pending = erase item.symbol s.pending },
      )

  unfoldable pub fill_all :
      Machine F → ℕ → Dict F → Dict (PositionRow F) → List (Pending F) → Method F (List (FillRow F))
  fill_all m open_time prices rows [] = pure []
  fill_all m open_time prices rows (item ∷ due) = do
    row ← fill_one m open_time prices rows item
    later ← fill_all m open_time prices rows due
    pure (row ∷ later)

  -- `drain_due`; `aware` is that `open_time` has a time zone.
  unfoldable pub drain_due :
      Machine F → ℕ → Bool → Dict F → Frame (PositionInput F) → Method F (RiskFillBatch F)
  drain_due m open_time aware prices positions = do
    raise_if (not aware) RiskError.naive_open_time
    pending ← gets (λ s. s.pending)
    raise_if (not (all_items (λ _ item. leb open_time item.fill_time) pending))
        RiskError.passed_fill_time
    rows ← lift (position_rows positions)
    instructions ← fill_all m open_time prices rows (due_at open_time pending)
    s ← gets (λ s. s)
    pure (record { instructions = instructions; saved = checkpoint s })
