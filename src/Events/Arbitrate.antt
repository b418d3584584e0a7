-- ===== src/Events/Arbitrate.antt =====
-- `arbitrate`: of the intents that share a fill time and a symbol one wins.
use bfbt.Base.{
  ℕ, ◌-◌, Bool, true, false, not, ◌&&◌, Option, none, some, List, [], ◌∷◌, ◌++◌, ltb, leb, ◌==◌,
  if◌then◌else◌, length, filter, any, sort_by,
}
use bfbt.Contracts.{EventPriority, to_int, ReasonCode}
use bfbt.Exec.{Result, ok, err}
use bfbt.Float.{Float}
use bfbt.Events.Intent.{EventError, Arbitrator, RawIntent, Intent, intent_before, normalize}

pub data Outcome : Type 0 where
  accepted suppressed : Outcome

-- A row of ARBITRATION_TRACE_SCHEMA.
pub record Trace : Type 0 where
  pub fill_time : ℕ
  pub symbol : ℕ
  pub instruction_id : ℕ
  pub outcome : Outcome
  pub winner_instruction_id : Option ℕ
  pub original_reason_code : ReasonCode
  pub final_reason_code : ReasonCode
  pub priority : ℕ

pub record ArbitrationBatch (F : Type 0) : Type 0 where
  pub instructions : List (Intent F)
  pub accepted_intents : List (Intent F)
  pub trace : List Trace
  pub input_count : ℕ
  pub accepted_count : ℕ
  pub suppressed_count : ℕ

module _ {F : Type 0} where
  -- Whether a row has a fill time and a symbol.
  abbrev pub has_key : ℕ × ℕ → Intent F → Bool
  has_key k i = (k.0 == i.fill_time) && (k.1 == i.symbol)

  -- The keys in the order of their first rows, none of which is in `seen`.
  unfoldable pub keys_from : List (ℕ × ℕ) → List (Intent F) → List (ℕ × ℕ)
  keys_from seen [] = []
  keys_from seen (i ∷ rows) =
      let known = keys_from seen rows in
      let found = keys_from ((i.fill_time, i.symbol) ∷ seen) rows in
      if any (λ k. has_key k i) seen then known else (i.fill_time, i.symbol) ∷ found

  -- `str(row["symbol"]) in cooldown and priority == SCHEDULED_STRATEGY`
  unfoldable pub is_cooled : List ℕ → Intent F → Bool
  unfolding to_int
  is_cooled cooldown i =
      any (λ s. i.symbol == s) cooldown && (i.priority == to_int EventPriority.scheduled_strategy)

  -- `eligible[0] if eligible else None`
  unfoldable pub winner_of : List ℕ → List (Intent F) → Option (Intent F)
  unfolding is_cooled
  winner_of cooldown [] = none
  winner_of cooldown (i ∷ rows) =
      let rest = winner_of cooldown rows in if is_cooled cooldown i then rest else some i

  -- `winner is not None and row["instruction_id"] == winner_id`
  unfoldable pub is_winner : Option (Intent F) → Intent F → Bool
  is_winner none i = false
  is_winner (some w) i = i.instruction_id == w.instruction_id

  abbrev pub id_of : Option (Intent F) → Option ℕ
  id_of none = none
  id_of (some w) = some w.instruction_id

  unfoldable pub final_reason : List ℕ → Option (Intent F) → Intent F → ReasonCode
  unfolding is_cooled is_winner
  final_reason cooldown winner i =
      if is_cooled cooldown i
      then ReasonCode.cooldown_active
      else if is_winner winner i
      then i.reason_code
      else ReasonCode.suppressed_by_higher_priority

  unfoldable pub trace_row : List ℕ → Option (Intent F) → Intent F → Trace
  unfolding is_winner final_reason
  trace_row cooldown winner i = record {
    fill_time = i.fill_time;
    symbol = i.symbol;
    instruction_id = i.instruction_id;
    outcome = if is_winner winner i then Outcome.accepted else Outcome.suppressed;
    winner_instruction_id = id_of winner;
    original_reason_code = i.reason_code;
    final_reason_code = final_reason cooldown winner i;
    priority = i.priority;
  }

  -- `sort(["decision_time", "priority", "symbol", "instruction_id"])`
  unfoldable pub instruction_before : Intent F → Intent F → Bool
  instruction_before a b =
      if not (a.decision_time == b.decision_time)
      then ltb a.decision_time b.decision_time
      else if not (a.priority == b.priority)
      then ltb a.priority b.priority
      else if not (a.symbol == b.symbol)
      then ltb a.symbol b.symbol
      else leb a.instruction_id b.instruction_id

-- `sort(["fill_time", "symbol", "priority", "instruction_id"])` of the trace.
unfoldable pub trace_before : Trace → Trace → Bool
trace_before a b =
    if not (a.fill_time == b.fill_time)
    then ltb a.fill_time b.fill_time
    else if not (a.symbol == b.symbol)
    then ltb a.symbol b.symbol
    else if not (a.priority == b.priority)
    then ltb a.priority b.priority
    else leb a.instruction_id b.instruction_id

module _ {F : Type 0} ⦃f : Float F⦄ where
  -- `final`; the frame of instructions drops its fill time, which no test reads again.
  unfoldable pub final_row : Arbitrator → List ℕ → Option (Intent F) → Intent F → Intent F
  unfolding is_winner final_reason
  final_row a cooldown winner i =
      let final = record i { run_id = a.run_id; reason_code = final_reason cooldown winner i } in
      if is_winner winner i then final else record final {
        constrained_delta_notional = some f.nought;
        requested_target_weight = none;
      }

  -- The row loop for one group.
  unfoldable pub decide_rows :
      Arbitrator
      → List ℕ
      → Option (Intent F)
      → List (Intent F)
      → List (Intent F) × List (Intent F) × List Trace
  unfolding final_row trace_row is_winner
  decide_rows a cooldown winner [] = ([], [], [])
  decide_rows a cooldown winner (i ∷ rows) =
      let (output, chosen, trace) = decide_rows a cooldown winner rows in
      let final = final_row a cooldown winner i in
      (
        final ∷ output,
        if is_winner winner i then final ∷ chosen else chosen,
        trace_row cooldown winner i ∷ trace,
      )

  unfoldable pub decide_group :
      Arbitrator → List ℕ → List (Intent F) → List (Intent F) × List (Intent F) × List Trace
  unfolding decide_rows winner_of
  decide_group a cooldown rows = decide_rows a cooldown (winner_of cooldown rows) rows

  -- The loop over `partition_by(["fill_time", "symbol"], maintain_order=True)`.
  unfoldable pub decide_groups :
      Arbitrator
      → List ℕ
      → List (ℕ × ℕ)
      → List (Intent F)
      → List (Intent F) × List (Intent F) × List Trace
  unfolding decide_group
  decide_groups a cooldown [] rows = ([], [], [])
  decide_groups a cooldown (k ∷ keys) rows =
      let (output, chosen, trace) = decide_group a cooldown (filter (has_key k) rows) in
      let (more_output, more_chosen, more_trace) = decide_groups a cooldown keys rows in
      (output ++ more_output, chosen ++ more_chosen, trace ++ more_trace)

  -- `arbitrate` of normalized rows.
  unfoldable pub arbitrate_rows : Arbitrator → List ℕ → List (Intent F) → ArbitrationBatch F
  unfolding decide_groups keys_from instruction_before trace_before
  arbitrate_rows a cooldown rows =
      let (output, chosen, trace) = decide_groups a cooldown (keys_from [] rows) rows in
      let accepted_intents = sort_by intent_before chosen in
      record {
        instructions = sort_by instruction_before output;
        accepted_intents = accepted_intents;
        trace = sort_by trace_before trace;
        input_count = length rows;
        accepted_count = length accepted_intents;
        suppressed_count = length rows - length accepted_intents;
      }

  -- `arbitrate`
  unfoldable pub arbitrate :
      Arbitrator
      → List ℕ
      → Bool
      → Option (List (RawIntent F))
      → Result EventError (ArbitrationBatch F)
  unfolding normalize arbitrate_rows
  arbitrate a cooldown well_typed intents = elim (normalize a true well_typed intents) [
    | err e ↦ err e
    | ok rows ↦ ok (arbitrate_rows a cooldown rows)
  ]
