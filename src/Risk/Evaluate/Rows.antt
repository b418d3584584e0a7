-- ===== src/Risk/Evaluate/Rows.antt =====
-- `_state_snapshot` of src/bfbt/risk/state_machine.py: the report of the positions.
use bfbt.Base.{ℕ, Option, none, some, List, [], ◌∷◌}
use bfbt.Dict.{Dict, lookup}
use bfbt.Exec.{Result, ok, err}
use bfbt.Float.{Float}
use bfbt.Risk.State.{Direction, RiskError, RiskPosition, Cooldown, Machine}
use bfbt.Risk.Trigger.{level_of, LevelKind}

-- A row of `_RISK_SNAPSHOT_SCHEMA`.
pub record StateRow (F : Type 0) : Type 0 where
  pub timestamp : ℕ
  pub symbol : ℕ
  pub direction : Direction
  pub average_entry_price : F
  pub favorable_extreme : F
  pub stop_loss_level : Option F
  pub take_profit_level : Option F
  pub trailing_stop_level : Option F
  pub trigger_count : ℕ
  pub cooldown_release_index : Option ℕ
  pub run_id : ℕ

module _ {F : Type 0} ⦃f : Float F⦄ where
  -- One row of `_state_snapshot`.
  unfoldable pub state_row :
      Machine F → ℕ → Dict Cooldown → ℕ → RiskPosition F → Result RiskError (StateRow F)
  state_row m time cooldowns symbol p =
      let exits = m.config.symbol_exits in
      elim (level_of exits.stop_loss p LevelKind.stop) [
        | err e ↦ err e
        | ok stop_level ↦ elim (level_of exits.take_profit p LevelKind.take) [
          | err e ↦ err e
          | ok take_level ↦ elim (level_of exits.trailing_stop p LevelKind.trailing) [
            | err e ↦ err e
            | ok trailing_level ↦ ok (record {
              timestamp = time;
              symbol = symbol;
              direction = p.direction;
              average_entry_price = p.average_entry_price;
              favorable_extreme = p.favorable_extreme;
              stop_loss_level = stop_level;
              take_profit_level = take_level;
              trailing_stop_level = trailing_level;
              trigger_count = p.trigger_count;
              cooldown_release_index = elim (lookup symbol cooldowns) [
                | none ↦ none
                | some c ↦ some c.release_index
              ];
              run_id = m.run_id;
            })
          ]
        ]
      ]

  -- `_state_snapshot`, over the sorted positions.
  unfoldable pub state_rows :
      Machine F → ℕ → Dict Cooldown → Dict (RiskPosition F) → Result RiskError (List (StateRow F))
  unfolding state_row
  state_rows m time cooldowns [] = ok []
  state_rows m time cooldowns (e ∷ d) =
      let rest = state_rows m time cooldowns d in
      elim (state_row m time cooldowns e.0 e.1) [
        | err x ↦ err x
        | ok row ↦ elim rest [ err x ↦ err x | ok rows ↦ ok (row ∷ rows) ]
      ]
