-- ===== src/Events/Intent.antt =====
-- The rows of INTENT_SCHEMA, and `normalize`. Ids, symbols and run ids are naturals in the order of
-- their texts; a side or a reason that is no known word is none.
use bfbt.Base.{
  ℕ, Bool, false, not, ◌&&◌, ◌||◌, Option, none, some, List, [], ◌∷◌, ltb, leb, ◌==◌, if◌then◌else◌,
  length, any, sort_by,
}
use bfbt.Contracts.{ReasonCode}
use bfbt.Exec.{Result, ok, err}
use bfbt.Float.{Float}
use bfbt.Rank.Row.{Side}

-- `EventArbitrationError` by its message.
pub data EventError : Type 0 where
  run_id_not_explicit bad_limit missing_columns too_many_pending bad_types : EventError
  duplicate_instructions instruction_not_explicit missing_times fill_before_decision : EventError
  unknown_side unknown_priority unknown_reason infinite_notional foreign_run : EventError
  ambiguous_intents duplicate_trades unlinked_trade unlinked_intent : EventError
  split_risk_event inconsistent_outcome unresolved_risk_event : EventError

-- What `__init__` sets. Which texts of an id are explicit (neither empty nor "latest") is a
-- parameter, since ids are naturals.
pub record Arbitrator : Type 0 where
  pub run_id : ℕ
  pub max_pending_intents : ℕ
  pub is_explicit : ℕ → Bool

-- A row as it comes in.
pub record RawIntent (F : Type 0) : Type 0 where
  pub instruction_id : ℕ
  pub decision_time : Option ℕ
  pub fill_time : Option ℕ
  pub rank_source_time : Option ℕ
  pub symbol : ℕ
  pub side : Option Side
  pub instruction_mode : ℕ
  pub requested_delta_notional : Option F
  pub constrained_delta_notional : Option F
  pub requested_target_weight : Option F
  pub source_event_id : Option ℕ
  pub reason_code : Option ReasonCode
  pub priority : ℕ
  pub run_id : ℕ

-- A row that passed `normalize`.
pub record Intent (F : Type 0) : Type 0 where
  pub instruction_id : ℕ
  pub decision_time : ℕ
  pub fill_time : ℕ
  pub rank_source_time : Option ℕ
  pub symbol : ℕ
  pub side : Side
  pub instruction_mode : ℕ
  pub requested_delta_notional : Option F
  pub constrained_delta_notional : Option F
  pub requested_target_weight : Option F
  pub source_event_id : Option ℕ
  pub reason_code : ReasonCode
  pub priority : ℕ
  pub run_id : ℕ

-- `__init__`
unfoldable pub create_arbitrator : Arbitrator → Result EventError Arbitrator
create_arbitrator a =
    if not (a.is_explicit a.run_id)
    then err EventError.run_id_not_explicit
    else if ltb a.max_pending_intents 1
    then err EventError.bad_limit
    else ok a

-- `{int(item) for item in EventPriority}`
abbrev pub is_priority : ℕ → Bool
is_priority p = (p == 0) || (p == 100) || (p == 200) || (p == 300) || (p == 400)

module _ {F : Type 0} where
  -- `n_unique() != height` of the ids.
  unfoldable pub has_duplicate_ids : List (RawIntent F) → Bool
  has_duplicate_ids [] = false
  has_duplicate_ids (r ∷ rows) =
      any (λ x. r.instruction_id == x.instruction_id) rows || has_duplicate_ids rows

  -- `sort(["fill_time", "symbol", "priority", "instruction_id"])`
  unfoldable pub intent_before : Intent F → Intent F → Bool
  intent_before a b =
      if not (a.fill_time == b.fill_time)
      then ltb a.fill_time b.fill_time
      else if not (a.symbol == b.symbol)
      then ltb a.symbol b.symbol
      else if not (a.priority == b.priority)
      then ltb a.priority b.priority
      else leb a.instruction_id b.instruction_id

  -- The row whose fields are all there.
  unfoldable pub typed_intent : RawIntent F → ℕ → ℕ → Side → ReasonCode → Intent F
  typed_intent r decision fill side reason = record {
    instruction_id = r.instruction_id;
    decision_time = decision;
    fill_time = fill;
    rank_source_time = r.rank_source_time;
    symbol = r.symbol;
    side = side;
    instruction_mode = r.instruction_mode;
    requested_delta_notional = r.requested_delta_notional;
    constrained_delta_notional = r.constrained_delta_notional;
    requested_target_weight = r.requested_target_weight;
    source_event_id = r.source_event_id;
    reason_code = reason;
    priority = r.priority;
    run_id = r.run_id;
  }

module _ {F : Type 0} ⦃f : Float F⦄ where
  -- `value is not None and not isfinite(float(value))`
  abbrev pub is_infinite : Option F → Bool
  is_infinite none = false
  is_infinite (some x) = not (f.is_finite x)

  -- The tests of a row whose times, side and reason are there.
  unfoldable pub check_typed :
      Arbitrator → RawIntent F → ℕ → ℕ → Side → Result EventError (Intent F)
  unfolding typed_intent
  check_typed a r decision fill side =
      if not (is_priority r.priority) then err EventError.unknown_priority else elim r.reason_code [
        | none ↦ err EventError.unknown_reason
        | some reason ↦
            if is_infinite r.requested_delta_notional || is_infinite r.constrained_delta_notional
            then err EventError.infinite_notional
            else if not (r.run_id == a.run_id)
            then err EventError.foreign_run
            else ok (typed_intent r decision fill side reason)
      ]

  -- The tests of a row whose times are there.
  unfoldable pub check_timed : Arbitrator → RawIntent F → ℕ → ℕ → Result EventError (Intent F)
  unfolding check_typed
  check_timed a r decision fill =
      if ltb fill decision then err EventError.fill_before_decision else elim r.side [
        | none ↦ err EventError.unknown_side
        | some side ↦ check_typed a r decision fill side
      ]

  -- One round of the row loop of `normalize`.
  unfoldable pub check_intent : Arbitrator → RawIntent F → Result EventError (Intent F)
  unfolding check_timed
  check_intent a r =
      if not (a.is_explicit r.instruction_id)
      then err EventError.instruction_not_explicit
      else elim r.decision_time [
        | none ↦ err EventError.missing_times
        | some decision ↦ elim r.fill_time [
          | none ↦ err EventError.missing_times
          | some fill ↦ check_timed a r decision fill
        ]
      ]

  unfoldable pub check_intents :
      Arbitrator → List (RawIntent F) → Result EventError (List (Intent F))
  check_intents a [] = ok []
  check_intents a (r ∷ rows) =
      let rest = check_intents a rows in
      elim (check_intent a r) [
        | err e ↦ err e
        | ok x ↦ elim rest [ err e ↦ err e | ok xs ↦ ok (x ∷ xs) ]
      ]

  -- `normalize`. A frame is none where its columns are missing, and `well_typed` is that polars can
  -- cast it to the schema.
  unfoldable pub normalize :
      Arbitrator
      → (enforce_pending_limit well_typed : Bool) → Option (List (RawIntent F))
      → Result EventError (List (Intent F))
  unfolding check_intents has_duplicate_ids
  normalize a enforce_pending_limit well_typed none = err EventError.missing_columns
  normalize a enforce_pending_limit well_typed (some rows) =
      if enforce_pending_limit && ltb a.max_pending_intents (length rows)
      then err EventError.too_many_pending
      else if not well_typed
      then err EventError.bad_types
      else if has_duplicate_ids rows
      then err EventError.duplicate_instructions
      else elim (check_intents a rows) [ err e ↦ err e | ok xs ↦ ok (sort_by intent_before xs) ]
