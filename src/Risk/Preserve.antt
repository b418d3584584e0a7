-- ===== src/Risk/Preserve.antt =====
-- Every operation of the risk machine that returns leaves a well-formed state.
use bfbt.Base.{◌≡◌, []}
use bfbt.Config.ExitRules.{TriggerPrice}
use bfbt.Dict.{Dict}
use bfbt.Exec.{ok}
use bfbt.Float.{Float}
use bfbt.Risk.State.{RiskState, Machine, Frame, BarRow, PositionInput, PositionRow, Snapshot}
use bfbt.Risk.Evaluate.{RiskEvaluation, evaluate}
use bfbt.Risk.Runs.{Admitted, evaluate-Evaluated}
use bfbt.Risk.Steps.{fire_events-Fires}
use bfbt.Risk.Phase.{InPhase, Fires-InPhase}
use bfbt.Risk.Sync.{position_rows-IsUnique}
use bfbt.Risk.Clock.{read_bars-FollowsClock}
use bfbt.Risk.Invariant.{
  IsValid, none_pending, entered, entered-InPhase, advanced-IsValid, IsUnique-expire_cooldowns,
}

module _ {F : Type 0} ⦃f : Float F⦄ (m : Machine F) (bars : Frame (BarRow F))
    (positions : Frame (PositionInput F)) (equity : F) (source : TriggerPrice)
    (s : RiskState F) where
  -- No intent is left from before when a call of `evaluate` gets past its guards.
  pub Admitted-none_pending :
      {snap : Snapshot F} {rows : Dict (PositionRow F)} {u : RiskState F}
      → IsValid m s
      → Admitted m bars positions equity source s snap rows u
      → s.pending ≡ []
  Admitted-none_pending {snap} h a =
      none_pending s.pending s.last_close_time snap.opened_at
        (λ k item e. (h.intents.keyed k item e).1)
        (read_bars-FollowsClock m bars s.last_close_time a.bars_read).contiguous a.none_due

  -- A call of `evaluate` that returns leaves a well-formed state.
  pub evaluate-IsValid :
      {r : RiskEvaluation F} {t : RiskState F}
      → IsValid m s
      → evaluate m bars positions equity source s ≡ (ok r, t)
      → IsValid m t
  evaluate-IsValid h e =
      let run = evaluate-Evaluated m bars positions equity source s e in
      let unique = position_rows-IsUnique positions run.admitted.rows_read in
      let start = (entered m run.rows s).cooldowns in
      let fires = fire_events-Fires m run.snap equity run.rows _ run.u unique run.fired in
      let before : InPhase m run.snap.closed_at run.rows start run.u = rw run.admitted.after (
        entered-InPhase m run.snap.closed_at run.rows s h unique
          (Admitted-none_pending h run.admitted)) in
      let phase = Fires-InPhase m run.snap.closed_at run.rows start fires before in
      rw run.settled.after (
        advanced-IsValid m run.snap run.rows run.v run.settled.d start phase run.settled.widened
          equity unique (IsUnique-expire_cooldowns _ _ run.rows s.cooldowns h.cooldowns_unique)
          (rw run.admitted.after at run.admitted.within) run.settled.within)
