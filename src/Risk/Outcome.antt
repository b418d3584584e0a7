-- ===== src/Risk/Outcome.antt =====
-- What a call of `evaluate` that returns has done to the clocks, the positions and the peak.
use bfbt.Base.{ℕ, ◌+◌, ◌*◌, ◌≡◌, sym, ap, ◌∙◌, false, some, []}
use bfbt.Config.ExitRules.{TriggerPrice}
use bfbt.Dict.{Dict, contains}
use bfbt.Exec.{ok}
use bfbt.Exec.Laws.{ok-injective}
use bfbt.Float.{Float, fmax}
use bfbt.Risk.State.{PositionRow, RiskState, Machine, Frame, BarRow, PositionInput}
use bfbt.Risk.Input.{position_rows, is_gap}
use bfbt.Risk.Evaluate.{RiskEvaluation, evaluate, advance}
use bfbt.Risk.Runs.{Evaluated, evaluate-Evaluated}
use bfbt.Risk.Steps.{Fires, fire_events-Fires}
use bfbt.Risk.Phase.{InPhase, Fires-InPhase, Fires-SameClock}
use bfbt.Risk.Sync.{position_rows-IsUnique, contains-update_extremes}
use bfbt.Risk.Clock.{read_bars-FollowsClock}
use bfbt.Risk.Invariant.{IsValid, entered, entered-InPhase}
use bfbt.Risk.Preserve.{Admitted-none_pending}

module _ {F : Type 0} ⦃f : Float F⦄ (m : Machine F) (bars : Frame (BarRow F))
    (positions : Frame (PositionInput F)) (equity : F) (source : TriggerPrice)
    (s : RiskState F) where
  pub run-Fires :
      {r : RiskEvaluation F} {t : RiskState F}
      (run : Evaluated m bars positions equity source s r t)
      → Fires m run.snap.closed_at run.rows run.u run.v
  run-Fires run =
      fire_events-Fires m run.snap equity run.rows _ run.u
        (position_rows-IsUnique positions run.admitted.rows_read) run.fired

  pub run-InPhase :
      {r : RiskEvaluation F} {t : RiskState F}
      (run : Evaluated m bars positions equity source s r t)
      → IsValid m s
      → InPhase m run.snap.closed_at run.rows (entered m run.rows s).cooldowns run.v
  run-InPhase run h =
      Fires-InPhase m run.snap.closed_at run.rows (entered m run.rows s).cooldowns (run-Fires run) (
        rw run.admitted.after (
          entered-InPhase m run.snap.closed_at run.rows s h
            (position_rows-IsUnique positions run.admitted.rows_read)
            (Admitted-none_pending m bars positions equity source s h run.admitted)))

  -- A call of `evaluate` that returns from a well-formed state found no intent pending; it counts
  -- one evaluation, moves the clock by one evaluation interval from the last close, where there is
  -- one, and holds the larger of the old peak and the equity.
  pub evaluate_advances :
      {r : RiskEvaluation F} {t : RiskState F}
      → IsValid m s
      → evaluate m bars positions equity source s ≡ (ok r, t)
      → (s.pending ≡ [])
        × (t.evaluation_count ≡ s.evaluation_count + 1)
        × (t.portfolio_peak_equity ≡ fmax s.portfolio_peak_equity equity)
        × ((opened : ℕ) × (t.last_open_time ≡ some opened)
            × (t.last_close_time ≡ some (opened + m.config.interval_seconds * 1000))
            × (is_gap s.last_close_time opened ≡ false))
  unfolding advance
  evaluate_advances h e =
      let run = evaluate-Evaluated m bars positions equity source s e in
      let clock = Fires-SameClock m run.snap.closed_at run.rows (run-Fires run) in
      let times = read_bars-FollowsClock m bars s.last_close_time run.admitted.bars_read in
      let entry = run.admitted.after in
      let leave = run.settled.after in
      (
        Admitted-none_pending m bars positions equity source s h run.admitted,
        ap (λ x. x.evaluation_count) leave
            ∙ ap (λ (n : ℕ). n + 1) (clock.count ∙ ap (λ x. x.evaluation_count) entry),
        ap (λ x. x.portfolio_peak_equity) leave
            ∙ ap (λ p. fmax p equity) (clock.peak ∙ ap (λ x. x.portfolio_peak_equity) entry),
        (
          run.snap.opened_at,
          ap (λ x. x.last_open_time) leave,
          ap (λ x. x.last_close_time) leave ∙ ap some times.lasts,
          times.contiguous,
        ),
      )

  -- After a call of `evaluate` that returns from a well-formed state, the machine has a position
  -- for exactly the symbols that the input holds.
  pub evaluate_tracks :
      {r : RiskEvaluation F} {t : RiskState F} {rows : Dict (PositionRow F)} (k : ℕ)
      → IsValid m s
      → evaluate m bars positions equity source s ≡ (ok r, t)
      → position_rows positions ≡ ok rows
      → contains k t.positions ≡ contains k rows
  unfolding advance
  evaluate_tracks k h e p =
      let run = evaluate-Evaluated m bars positions equity source s e in
      let same = ok-injective (sym run.admitted.rows_read ∙ p) in
      ap (λ x. contains k x.positions) run.settled.after
      ∙ contains-update_extremes run.snap.bars run.v.positions k run.settled.widened
      ∙ (run-InPhase run h).held k
      ∙ ap (contains k) same
