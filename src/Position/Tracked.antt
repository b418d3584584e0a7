-- ===== src/Position/Tracked.antt =====
-- The rolling margin is tracked without a change to the positions, the sequence or the clock.
use bfbt.Base.{ℕ, ◌≡◌, inl, inr, not, ◌||◌, Option, none, some, Bool-cases}
use bfbt.Dict.{Dict}
use bfbt.Exec.Keeps.{Keeps, or_raise-Keeps}
use bfbt.Float.{Float, FloatMath}
use bfbt.Position.State.{PositionError, Position, Account, Engine, is_rolling}
use bfbt.Position.Execute.{
  settled_margin, settle_with, settle_rolling_round, track_round, track_rolling,
}

module _ {F : Type 0} ⦃f : Float F⦄ (d : Dict (Position F)) (n : ℕ) (o : Option ℕ) where
  -- The positions, the sequence and the last decision time are these.
  abbrev pub Has : Account F → Type 0
  Has s = (s.positions ≡ d) × (s.sequence ≡ n) × (s.last_decision_time ≡ o)

  settle_with-Keeps : (active low high reset : F) → Keeps Has (settle_with active low high reset)
  unfolding settle_with
  settle_with-Keeps active low high reset s h =
      let margin = settled_margin low high reset (f.add active s.rolling_round_net_pnl) in
      elim (Bool-cases (not (f.is_finite margin) || f.le margin f.nought)) [
        | inl e ↦ rw (settled_margin, e) h
        | inr e ↦ rw (settled_margin, e) h
      ]

  settle_rolling_round-Keeps : (e : Engine F) → Keeps Has (settle_rolling_round e)
  unfolding settle_rolling_round
  settle_rolling_round-Keeps e s h =
      or_raise-Keeps Has s.rolling_active_margin PositionError.no_active_margin s _ h (λ a _.
        or_raise-Keeps Has e.sizing.rolling_min_margin PositionError.assertion s _ h (λ b _.
          or_raise-Keeps Has e.sizing.rolling_max_margin PositionError.assertion s _ h (λ c _.
            or_raise-Keeps Has e.sizing.rolling_reset_margin PositionError.assertion s _ h
              (λ r _. settle_with-Keeps a b c r s h))))

  module _ ⦃m : FloatMath F⦄ where
    track_round-Keeps :
        (e : Engine F) (old : Option (Position F)) (new price gain fee slippage : F)
        → Keeps Has (track_round e old new price gain fee slippage)
    unfolding track_round
    track_round-Keeps e none new price gain fee slippage s h =
        elim (Bool-cases (f.lt f.epsilon (f.abs new))) [ inl x ↦ rw (x) h | inr x ↦ rw (x) h ]
    track_round-Keeps e (some p) new price gain fee slippage s h =
        elim (Bool-cases (f.le (f.abs new) f.epsilon)) [
          | inl x ↦ rw (x) (
              settle_rolling_round-Keeps e
                (record s {
                  rolling_round_net_pnl =
                      f.add s.rolling_round_net_pnl (f.sub (f.sub gain fee) slippage);
                })
                h)
          | inr x ↦ rw (x) h
        ]

    pub track_rolling-Keeps :
        (e : Engine F) (old : Option (Position F)) (new price gain fee slippage : F)
        → Keeps Has (track_rolling e old new price gain fee slippage)
    unfolding track_rolling
    track_rolling-Keeps e old new price gain fee slippage s h =
        elim (Bool-cases (is_rolling e.sizing.mode)) [
          | inl x ↦ rw (x) (track_round-Keeps e old new price gain fee slippage s h)
          | inr x ↦ rw (x) h
        ]
