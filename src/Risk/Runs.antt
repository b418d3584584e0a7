-- ===== src/Risk/Runs.antt =====
-- What a call of `evaluate` that returns has gone through: one record for `admit`, one for the rest.
use bfbt.Base.{◌≤◌, ◌≡◌, true, not, List, leb, length, arith}
use bfbt.Config.ExitRules.{TriggerPrice}
use bfbt.Dict.{Dict, contains, all_items, sort, union_size}
use bfbt.Exec.{ok}
use bfbt.Exec.Laws.{continue-eq-ok}
use bfbt.Float.{Float}
use bfbt.Risk.State.{
  RiskPosition, RiskState, Machine, Frame, BarRow, PositionInput, PositionRow, Snapshot, RiskEvent,
}
use bfbt.Risk.Input.{read_bars, position_rows}
use bfbt.Risk.Trigger.{portfolio_trigger}
use bfbt.Risk.Book.{sync_positions, expire_cooldowns, update_extremes}
use bfbt.Risk.Checkpoint.{checkpoint}
use bfbt.Risk.Evaluate.{
  RiskEvaluation, same_price, admit, fire_events, advance, settle, state_rows, evaluate,
}

module _ {F : Type 0} ⦃f : Float F⦄ where
  -- `s` is the state before, `snap` and `rows` what was read, `t` the state after the guards.
  pub record Admitted (m : Machine F) (bars : Frame (BarRow F))
      (positions : Frame (PositionInput F)) (equity : F) (source : TriggerPrice) (s : RiskState F)
      (snap : Snapshot F) (rows : Dict (PositionRow F)) (t : RiskState F) : Type 0 where
    pub source_matches : same_price source m.config.trigger_price ≡ true
    pub equity_finite : f.is_finite equity ≡ true
    pub bars_read : read_bars m bars s.last_close_time ≡ ok snap
    pub none_due : all_items (λ _ item. not (leb item.fill_time snap.opened_at)) s.pending ≡ true
    pub rows_read : position_rows positions ≡ ok rows
    pub covered : all_items (λ k _. contains k snap.bars) rows ≡ true
    pub within : union_size rows t.cooldowns ≤ m.max_risk_state_rows
    pub after : t ≡ record s {
      cooldowns = expire_cooldowns m.config.reentry_policy s.evaluation_count rows s.cooldowns;
      positions = sync_positions rows s.positions;
    }

  pub admit-Admitted :
      (m : Machine F) (bars : Frame (BarRow F)) (positions : Frame (PositionInput F)) (equity : F)
      (source : TriggerPrice) (s : RiskState F) {snap : Snapshot F} {rows : Dict (PositionRow F)}
      {t : RiskState F}
      → admit m bars positions equity source s ≡ (ok (snap, rows), t)
      → Admitted m bars positions equity source s snap rows t
  unfolding admit
  admit-Admitted m bars positions equity source s h = ground arith

  -- `v` is the state in which the events are known, `d` the widened positions.
  pub record Settled (m : Machine F) (snap : Snapshot F) (equity : F) (events : List (RiskEvent F))
      (v : RiskState F) (r : RiskEvaluation F) (t : RiskState F) : Type 0 where
    pub d : Dict (RiskPosition F)
    pub within : length v.pending ≤ m.max_pending_risk_intents
    pub widened : update_extremes snap.bars v.positions ≡ (ok tt, d)
    pub after : t ≡ advance snap equity (record v { positions = d })
    pub events_kept : r.events ≡ events
    pub intents : r.pending_intents ≡ (checkpoint t).pending_intents
    pub saved : r.saved ≡ checkpoint t
    pub state : state_rows m snap.closed_at t.cooldowns (sort t.positions) ≡ ok r.state

  settle-Settled :
      (m : Machine F) (snap : Snapshot F) (equity : F) (events : List (RiskEvent F))
      (v : RiskState F) {r : RiskEvaluation F} {t : RiskState F}
      → settle m snap equity events v ≡ (ok r, t)
      → Settled m snap equity events v r t
  unfolding settle
  settle-Settled m snap equity events v h =
      let d = (update_extremes snap.bars v.positions).1 in
      record {
        d = d;
        within = ground arith;
        widened = ground arith;
        after = ground arith;
        events_kept = ground arith;
        intents = ground arith;
        saved = ground arith;
        state = ground arith;
      }

  -- `u` is the state that `admit` leaves, `v` the one in which the events are known.
  pub record Evaluated (m : Machine F) (bars : Frame (BarRow F))
      (positions : Frame (PositionInput F)) (equity : F) (source : TriggerPrice) (s : RiskState F)
      (r : RiskEvaluation F) (t : RiskState F) : Type 0 where
    pub snap : Snapshot F
    pub rows : Dict (PositionRow F)
    pub u : RiskState F
    pub v : RiskState F
    pub events : List (RiskEvent F)
    pub admitted : Admitted m bars positions equity source s snap rows u
    pub fired :
        fire_events m snap equity rows (portfolio_trigger m u.portfolio_peak_equity equity) u
        ≡ (ok events, v)
    pub settled : Settled m snap equity events v r t

  pub evaluate-Evaluated :
      (m : Machine F) (bars : Frame (BarRow F)) (positions : Frame (PositionInput F)) (equity : F)
      (source : TriggerPrice) (s : RiskState F) {r : RiskEvaluation F} {t : RiskState F}
      → evaluate m bars positions equity source s ≡ (ok r, t)
      → Evaluated m bars positions equity source s r t
  unfolding evaluate
  evaluate-Evaluated m bars positions equity source s h =
      let (sr, u, e1, h1) = continue-eq-ok (admit m bars positions equity source s) _ h in
      let (events, v, e2, h2) =
        continue-eq-ok
          (fire_events m sr.0 equity sr.1 (portfolio_trigger m u.portfolio_peak_equity equity) u) _
          h1 in
      record {
        snap = sr.0;
        rows = sr.1;
        u = u;
        v = v;
        admitted = admit-Admitted m bars positions equity source s e1;
        events = events;
        fired = e2;
        settled = settle-Settled m sr.0 equity events v h2;
      }
