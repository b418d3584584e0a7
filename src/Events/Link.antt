-- ===== src/Events/Link.antt =====
-- `link_risk_event_fills`: each risk event gets a fill, a suppression or the end of the data. The
-- lazy variant takes the same steps over lazy frames.
use bfbt.Base.{
  ℕ, Bool, true, false, not, ◌&&◌, ◌||◌, Option, none, some, List, [], ◌∷◌, map, ◌==◌,
  if◌then◌else◌, is_some, any,
}
use bfbt.Contracts.{ReasonCode}
use bfbt.Exec.{Result, ok, err}
use bfbt.Risk.State.{Frame}
use bfbt.Events.Intent.{EventError}

-- A risk event, as far as the links read it.
pub record RiskEventRow : Type 0 where
  pub event_id : ℕ
  pub fill_time : Option ℕ
  pub reason_code : ReasonCode
  pub run_id : ℕ

pub record LinkedTrade : Type 0 where
  pub fill_time : Option ℕ
  pub source_event_id : Option ℕ
  pub is_filled : Bool

-- A position instruction, as far as the links read it.
pub record InstructionOutcome : Type 0 where
  pub source_event_id : Option ℕ
  pub reason_code : ReasonCode

abbrev pub is_suppression : ReasonCode → Bool
is_suppression ReasonCode.suppressed_by_higher_priority = true
is_suppression ReasonCode.cooldown_active = true
is_suppression _ = false

-- `reason_code in terminal_without_fill`
abbrev pub is_terminal : ReasonCode → Bool
is_terminal ReasonCode.end_of_data_unfilled = true
is_terminal ReasonCode.suppressed_by_higher_priority = true
is_terminal ReasonCode.cooldown_active = true
is_terminal _ = false

abbrev pub same_time : Option ℕ → Option ℕ → Bool
same_time none none = true
same_time (some a) (some b) = a == b
same_time _ _ = false

-- The fill times of the filled trades, by risk event.
unfoldable pub raw_links : List LinkedTrade → List (ℕ × Option ℕ)
raw_links [] = []
raw_links (t ∷ trades) =
    let rest = raw_links trades in
    if t.is_filled
    then (elim t.source_event_id [ none ↦ rest | some k ↦ (k, t.fill_time) ∷ rest ])
    else rest

-- The reasons of the instructions, by risk event.
unfoldable pub raw_outcomes : List InstructionOutcome → List (ℕ × ReasonCode)
raw_outcomes [] = []
raw_outcomes (i ∷ rows) =
    let rest = raw_outcomes rows in
    elim i.source_event_id [ none ↦ rest | some k ↦ (k, i.reason_code) ∷ rest ]

-- Whether a key has two values: `n_unique() > 1` of one of its groups.
unfoldable pub is_split : {V : Type 0} → (V → V → Bool) → List (ℕ × V) → Bool
is_split same rows = any (λ x. any (λ y. (x.0 == y.0) && not (same x.1 y.1)) rows) rows

-- `first()` of a key's group, none where the left join finds none.
unfoldable pub first_of : {V : Type 0} → ℕ → List (ℕ × V) → Option V
first_of k [] = none
first_of k (x ∷ rows) = let rest = first_of k rows in if k == x.0 then some x.1 else rest

-- The reason of a suppression or of a cooldown replaces the event's own.
unfoldable pub final_event_reason : Option ReasonCode → ReasonCode → ReasonCode
final_event_reason none reason = reason
final_event_reason (some outcome) reason = if is_suppression outcome then outcome else reason

-- `coalesce("linked_fill_time", "fill_time")`
unfoldable pub coalesced : Option (Option ℕ) → Option ℕ → Option ℕ
coalesced none own = own
coalesced (some none) own = own
coalesced (some (some t)) own = some t

-- A row of the two joins.
unfoldable pub resolve_event :
    ℕ → List (ℕ × Option ℕ) → List (ℕ × ReasonCode) → RiskEventRow → RiskEventRow
unfolding first_of final_event_reason coalesced
resolve_event run_id links outcomes x = record {
  event_id = x.event_id;
  fill_time = coalesced (first_of x.event_id links) x.fill_time;
  reason_code = final_event_reason (first_of x.event_id outcomes) x.reason_code;
  run_id = run_id;
}

-- `fill_time.is_null() & ~reason_code.is_in(terminal_without_fill)`
abbrev pub is_unresolved : RiskEventRow → Bool
is_unresolved x = not (is_some x.fill_time) && not (is_terminal x.reason_code)

-- The joined events, unless one is unresolved.
unfoldable pub resolve_all :
    ℕ
    → List (ℕ × Option ℕ)
    → List (ℕ × ReasonCode)
    → List RiskEventRow
    → Result EventError (List RiskEventRow)
unfolding resolve_event
resolve_all run_id links outcomes events =
    let linked = map (resolve_event run_id links outcomes) events in
    if any is_unresolved linked then err EventError.unresolved_risk_event else ok linked

-- `link_risk_event_fills`; `same_reason` is equality of reason codes, and no instructions are none.
unfoldable pub link_risk_event_fills :
    (ReasonCode → ReasonCode → Bool)
    → ℕ
    → Frame RiskEventRow
    → Frame LinkedTrade
    → Option (Frame InstructionOutcome)
    → Result EventError (List RiskEventRow)
unfolding raw_links raw_outcomes is_split resolve_all
link_risk_event_fills same_reason run_id events trades instructions =
    let links = raw_links trades.rows in
    if not events.has_columns || not trades.has_columns
    then err EventError.missing_columns
    else if is_split same_time links
    then err EventError.split_risk_event
    else elim instructions [
      | none ↦ resolve_all run_id links [] events.rows
      | some frame ↦
          if not frame.has_columns
          then err EventError.missing_columns
          else if is_split same_reason (raw_outcomes frame.rows)
          then err EventError.inconsistent_outcome
          else resolve_all run_id links (raw_outcomes frame.rows) events.rows
    ]
