-- ===== src/Position/Limit.antt =====
-- `_constraint_violations`, `_limit_close_turnover` and `_limit_opening`: how much of a trade the
-- constraints leave.
use bfbt.Base.{
  ℕ, zero, suc, Bool, true, false, not, ◌&&◌, Option, none, some, List, [], ◌∷◌, leb, if◌then◌else◌,
}
use bfbt.Contracts.{ReasonCode}
use bfbt.Dict.{Dict, lookup, insert, erase}
use bfbt.Float.{Float, FloatMath, fmin, fmax}
use bfbt.Position.State.{Account, Engine, is_empty}
use bfbt.Position.Value.{notionals, unrealized, gross_of, net_of}

-- The rounds of the bisection.
abbrev pub bisection_rounds : ℕ
bisection_rounds = 60

-- The reasons whose tests fail, in `_CONSTRAINT_ORDER`.
abbrev pub flag_if : Bool → ReasonCode → List ReasonCode → List ReasonCode
flag_if true reason rest = reason ∷ rest
flag_if false reason rest = rest

module _ {F : Type 0} ⦃f : Float F⦄ where
  -- `limit is not None and value > limit + EPSILON`
  unfoldable pub exceeds : Option F → F → Bool
  exceeds none value = false
  exceeds (some limit) value = f.lt (f.add limit f.epsilon) value

  -- The notionals with the symbol's after the trade.
  unfoldable pub post_notionals : ℕ → F → Dict F → Dict F
  post_notionals symbol post values =
      if f.le (f.abs post) f.epsilon then erase symbol values else insert symbol post values

  module _ ⦃m : FloatMath F⦄ where
    -- `_constraint_violations`
    unfoldable pub constraint_violations :
        Engine F
        → Dict F
        → (sizing_equity : F) → Account F
        → ℕ
        → (post turnover trade_cost : F) → List ReasonCode
    unfolding exceeds post_notionals
    constraint_violations e marks sizing_equity s symbol post turnover trade_cost =
        let values = post_notionals symbol post (notionals marks s.positions) in
        let gross = gross_of values in
        let equity = f.add s.cash_balance (unrealized marks s) in
        let c = e.constraints in
        flag_if (exceeds c.max_gross_exposure (m.div gross sizing_equity))
          ReasonCode.scaled_max_gross_exposure
          (flag_if (exceeds c.max_net_exposure (m.div (f.abs (net_of values)) sizing_equity))
            ReasonCode.scaled_max_net_exposure
            (flag_if (exceeds c.max_symbol_weight (m.div (f.abs post) sizing_equity))
              ReasonCode.scaled_max_symbol_weight
              (flag_if (exceeds c.max_symbol_notional (f.abs post))
                ReasonCode.scaled_max_symbol_notional
                (flag_if (exceeds c.max_turnover (m.div turnover sizing_equity))
                  ReasonCode.scaled_max_turnover
                  (flag_if
                    (f.lt (f.add (f.sub equity trade_cost) f.epsilon)
                      (f.add (m.div gross e.leverage) e.capital.reserved_cost_buffer))
                    ReasonCode.rejected_insufficient_margin [])))))

    -- `_limit_close_turnover`
    unfoldable pub limit_close_turnover :
        Engine F → (close_leg sizing_equity batch_turnover : F) → F
    limit_close_turnover e close_leg sizing_equity batch_turnover =
        elim e.constraints.max_turnover [
          | none ↦ close_leg
          | some maximum ↦
              if f.le (f.abs close_leg) f.epsilon
              then close_leg
              else f.mul close_leg (
                  fmin f.unit (
                    m.div (fmax f.nought (f.sub (f.mul maximum sizing_equity) batch_turnover))
                      (f.abs close_leg)))
        ]

    -- The bisection between `low`, which violates nothing, and `high`.
    unfoldable pub bisect : (F → Bool) → ℕ → (low high : F) → F
    bisect violates zero low high = low
    bisect violates (suc rounds) low high =
        let middle = m.div (f.add low high) m.two in
        let fails = violates middle in
        bisect violates rounds (if fails then low else middle) (if fails then middle else high)

    -- The violations of the trade of `candidate`.
    unfoldable pub opening_violations :
        Engine F
        → Dict F
        → (sizing_equity batch_turnover close_turnover : F) → Account F
        → ℕ
        → (old_notional candidate : F) → List ReasonCode
    unfolding constraint_violations
    opening_violations e marks sizing_equity batch_turnover close_turnover s symbol old candidate =
        constraint_violations e marks sizing_equity s symbol (f.add old candidate)
          (f.add batch_turnover (f.abs candidate))
          (f.mul (f.add close_turnover (f.abs candidate)) (f.add e.fee_rate e.slippage_rate))

    -- Whether the trade adds to a position that has had all its adds.
    unfoldable pub is_add_rejected : Engine F → Account F → ℕ → (old_notional opening : F) → Bool
    is_add_rejected e s symbol old opening = elim (lookup symbol s.positions) [
      | none ↦ false
      | some p ↦ elim e.constraints.max_consecutive_adds [
        | none ↦ false
        | some maximum ↦
            f.lt f.nought (f.mul old opening)
            && f.lt f.epsilon (f.abs old)
            && leb maximum p.consecutive_adds
      ]
    ]

    -- What is left of the opening after so many rounds.
    unfoldable pub scaled_opening : ℕ → (F → Bool) → F → F
    unfolding bisect
    scaled_opening rounds violates opening =
        let share = bisect (λ x. violates (f.mul opening x)) rounds f.nought f.unit in
        let constrained = f.mul opening share in
        if f.le (f.abs constrained) f.epsilon then f.nought else constrained

    -- `_limit_opening`
    unfoldable pub limit_opening :
        Engine F
        → Dict F
        → (sizing_equity batch_turnover close_turnover : F) → Account F
        → ℕ
        → (old_notional opening : F) → F × List ReasonCode
    unfolding is_add_rejected opening_violations scaled_opening
    limit_opening e marks sizing_equity batch_turnover close_turnover s symbol old opening =
        let violations =
          opening_violations e marks sizing_equity batch_turnover close_turnover s symbol old in
        if f.le (f.abs opening) f.epsilon
        then (f.nought, [])
        else if is_add_rejected e s symbol old opening
        then (f.nought, ReasonCode.rejected_max_consecutive_adds ∷ [])
        else if is_empty (violations opening)
        then (opening, [])
        else (
          scaled_opening bisection_rounds (λ x. not (is_empty (violations x))) opening,
          violations opening,
        )
