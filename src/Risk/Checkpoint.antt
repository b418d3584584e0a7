-- ===== src/Risk/Checkpoint.antt =====
-- `RiskCheckpoint`, `checkpoint`, `_restore` and `__init__`.
use bfbt.Base.{
  ℕ, Bool, not, ◌||◌, Option, none, some, List, [], ◌∷◌, map, ltb, length, if◌then◌else◌,
}
use bfbt.Dict.{Dict, insert, sort, union_size}
use bfbt.Exec.{Result, ok, err}
use bfbt.Float.{Float}
use bfbt.Risk.State.{RiskError, RiskPosition, Cooldown, Pending, RiskState, Machine}

-- The frames hold a row for each entry, with its symbol.
pub record RiskCheckpoint (F : Type 0) : Type 0 where
  pub evaluation_count : ℕ
  pub sequence : ℕ
  pub last_open_time : Option ℕ
  pub last_close_time : Option ℕ
  pub portfolio_peak_equity : F
  pub risk_positions : List (ℕ × RiskPosition F)
  pub cooldowns : List (ℕ × Cooldown)
  pub pending_intents : List (ℕ × Pending F)

-- `{row["symbol"]: … for row in rows}`: a later row of the same symbol wins.
unfoldable pub from_rows {ℓ} : {V : Type ℓ} → Dict V → List (ℕ × V) → Dict V
from_rows d [] = d
from_rows d (e ∷ rows) = from_rows (insert e.0 e.1 d) rows

module _ {F : Type 0} where
  -- `sorted(self._pending.values(), key=lambda value: value.symbol)`
  unfoldable pub pending_rows : Dict (Pending F) → List (ℕ × Pending F)
  pending_rows d = sort (map (λ e. (e.1.symbol, e.1)) d)

  unfoldable pub checkpoint : RiskState F → RiskCheckpoint F
  unfolding pending_rows
  checkpoint s = record {
    evaluation_count = s.evaluation_count;
    sequence = s.sequence;
    last_open_time = s.last_open_time;
    last_close_time = s.last_close_time;
    portfolio_peak_equity = s.portfolio_peak_equity;
    risk_positions = sort s.positions;
    cooldowns = sort s.cooldowns;
    pending_intents = pending_rows s.pending;
  }

  -- `RiskCheckpoint.risk_state_rows`
  unfoldable pub risk_state_rows : RiskCheckpoint F → ℕ
  unfolding from_rows
  risk_state_rows c = union_size (from_rows [] c.risk_positions) (from_rows [] c.cooldowns)

  -- `RiskCheckpoint.pending_intent_rows`
  unfoldable pub pending_intent_rows : RiskCheckpoint F → ℕ
  pending_intent_rows c = length c.pending_intents

  restored : RiskCheckpoint F → RiskState F
  unfolding from_rows
  restored c = record {
    positions = from_rows [] c.risk_positions;
    cooldowns = from_rows [] c.cooldowns;
    pending = from_rows [] c.pending_intents;
    evaluation_count = c.evaluation_count;
    sequence = c.sequence;
    last_open_time = c.last_open_time;
    last_close_time = c.last_close_time;
    portfolio_peak_equity = c.portfolio_peak_equity;
  }

  -- `_restore`
  unfoldable pub restore : Machine F → RiskCheckpoint F → Result RiskError (RiskState F)
  unfolding risk_state_rows pending_intent_rows restored
  restore m c =
      if ltb m.max_risk_state_rows (risk_state_rows c)
      then err RiskError.risk_rows_exceeded
      else if ltb m.max_pending_risk_intents (pending_intent_rows c)
      then err RiskError.pending_exceeded
      else ok (restored c)

  unfoldable pub initial : F → RiskState F
  initial equity = record {
    positions = [];
    cooldowns = [];
    pending = [];
    evaluation_count = 0;
    sequence = 0;
    last_open_time = none;
    last_close_time = none;
    portfolio_peak_equity = equity;
  }

module _ {F : Type 0} ⦃f : Float F⦄ where
  -- `__init__`. `explicit` is that the run id is neither empty nor "latest".
  unfoldable pub create :
      Machine F → Bool → Option (RiskCheckpoint F) → Result RiskError (RiskState F)
  unfolding restore initial
  create m explicit saved =
      if not explicit
      then err RiskError.run_id_not_explicit
      else if not (f.is_finite m.initial_equity) || f.le m.initial_equity f.nought
      then err RiskError.bad_initial_equity
      else if ltb m.max_risk_state_rows 1 || ltb m.max_pending_risk_intents 1
      then err RiskError.bad_budgets
      else elim saved [ none ↦ ok (initial m.initial_equity) | some c ↦ restore m c ]
