-- ===== src/Risk/State.antt =====
-- The records of src/bfbt/risk/state_machine.py and the errors its methods raise. Timestamps are
-- milliseconds; symbols, run and event ids are only compared, so they are naturals.
use bfbt.Base.{ℕ, Bool, Option, List}
use bfbt.Config.ExitRules.{RiskConfig, ExitAction, ConflictPolicy}
use bfbt.Contracts.{ReasonCode}
use bfbt.Dict.{Dict}
use bfbt.Exec.{Exec}

pub data Direction : Type 0 where
  long short : Direction

-- The event type strings that the machine writes.
pub data EventType : Type 0 where
  stop_loss trailing_stop take_profit : EventType
  portfolio_stop_loss portfolio_max_drawdown portfolio_take_profit : EventType

-- `RiskEvaluationError` by its message, `RiskStateBudgetExceeded` by its limit, and the assertion
-- and type errors of an unvalidated exit rule.
pub data RiskError : Type 0 where
  run_id_not_explicit bad_initial_equity bad_budgets : RiskError
  price_source_mismatch bad_equity undrained_intents missing_position_bars : RiskError
  missing_bar_columns mixed_bar_times wrong_bar_duration bars_not_contiguous : RiskError
  duplicate_bars incomplete_bar invalid_prices inconsistent_ohlc : RiskError
  missing_position_columns duplicate_positions invalid_position : RiskError
  conflicting_triggers missing_bar naive_open_time passed_fill_time : RiskError
  missing_opening_price risk_rows_exceeded pending_exceeded : RiskError
  no_distance no_fraction unknown_symbol : RiskError

pub record RiskPosition (F : Type 0) : Type 0 where
  pub direction : Direction
  pub average_entry_price : F
  pub favorable_extreme : F
  pub trigger_count : ℕ

pub record Cooldown : Type 0 where
  pub trigger_index : ℕ
  pub release_index : ℕ

pub record Pending (F : Type 0) : Type 0 where
  pub event_id : ℕ
  pub fill_time : ℕ
  pub symbol : ℕ
  pub event_type : EventType
  pub direction : Direction
  pub action : ExitAction
  pub reduce_fraction : F
  pub reference_price : Option F
  pub reason_code : ReasonCode
  pub priority : ℕ

-- The attributes that the methods write.
pub record RiskState (F : Type 0) : Type 0 where
  pub positions : Dict (RiskPosition F)
  pub cooldowns : Dict Cooldown
  pub pending : Dict (Pending F)
  pub evaluation_count : ℕ
  pub sequence : ℕ
  pub last_open_time : Option ℕ
  pub last_close_time : Option ℕ
  pub portfolio_peak_equity : F

-- What `content_sha256` is applied to for an event id and for an instruction id.
pub data Identity : Type 0 where
  event : ℕ → ℕ → Option ℕ → EventType → Identity
  instruction : ℕ → ℕ → ℕ → Identity

-- The attributes that `__init__` sets for good. The digest of an identity and of this machine's
-- `risk_version` is `hashlib`'s work, and a parameter.
pub record Machine (F : Type 0) : Type 0 where
  pub config : RiskConfig F
  pub initial_equity : F
  pub run_id : ℕ
  pub max_risk_state_rows : ℕ
  pub max_pending_risk_intents : ℕ
  pub digest : Identity → ℕ

-- A data frame: whether it has the required columns, and its rows.
pub record Frame (R : Type 0) : Type 0 where
  pub has_columns : Bool
  pub rows : List R

pub record BarRow (F : Type 0) : Type 0 where
  pub open_time : ℕ
  pub close_time : ℕ
  pub symbol : ℕ
  pub open_price : F
  pub high : F
  pub low : F
  pub close_price : F
  pub is_complete : Bool

pub record PositionInput (F : Type 0) : Type 0 where
  pub symbol : ℕ
  pub quantity : F
  pub average_entry_price : F

pub record PositionRow (F : Type 0) : Type 0 where
  pub quantity : F
  pub average_entry_price : F
  pub direction : Direction

pub record Snapshot (F : Type 0) : Type 0 where
  pub bars : Dict (BarRow F)
  pub opened_at : ℕ
  pub closed_at : ℕ

-- A row of `RISK_EVENT_SCHEMA`.
pub record RiskEvent (F : Type 0) : Type 0 where
  pub event_id : ℕ
  pub evaluation_time : ℕ
  pub trigger_time : ℕ
  pub symbol : Option ℕ
  pub event_type : EventType
  pub direction : Option Direction
  pub entry_price : Option F
  pub trigger_level : F
  pub observed_price : F
  pub conflict_policy : ConflictPolicy
  pub action : ExitAction
  pub fill_time : ℕ
  pub reason_code : ReasonCode
  pub run_id : ℕ

-- A method of the machine.
abbrev pub Method : Type 0 → Type 0 → Type 0
Method F A = Exec RiskError (RiskState F) A
