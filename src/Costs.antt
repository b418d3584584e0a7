-- ===== src/Costs.antt =====
-- src/bfbt/engine/costs.py, src/bfbt/engine/funding.py and src/bfbt/engine/execution.py: cost rates,
-- funding, the fill clock and the average entry price.
use bfbt.Base.{ℕ, ◌+◌, ◌*◌, not, ◌||◌, Option, none, some, List, ltb, if◌then◌else◌}
use bfbt.Config.Sizing.{Fee, Slippage, CostModel}
use bfbt.Config.Durations.{DurationError, duration_seconds}
use bfbt.Exec.{Result, ok, err}
use bfbt.Float.{Float, FloatMath}

-- `CostModelError` and the `ValueError`s of the two other files, by their messages.
pub data CostError : Type 0 where
  missing_taker_bps missing_slippage_bps funding_quantity funding_price funding_rate : CostError
  bad_delay : CostError
  bad_interval : DurationError → CostError

-- `fill_time`, in milliseconds.
unfoldable pub fill_time : ℕ → ℕ → List ℕ → Result CostError ℕ
fill_time signal_time delay interval =
    if ltb delay 1 then err CostError.bad_delay else elim (duration_seconds interval) [
      | err e ↦ err (CostError.bad_interval e)
      | ok seconds ↦ ok (signal_time + delay * seconds * 1000)
    ]

module _ {F : Type 0} ⦃f : Float F⦄ where
  -- `funding_cashflow`
  unfoldable pub funding_cashflow : (quantity mark rate : F) → Result CostError F
  funding_cashflow quantity mark rate =
      if not (f.is_finite quantity)
      then err CostError.funding_quantity
      else if not (f.is_finite mark) || f.le mark f.nought
      then err CostError.funding_price
      else if not (f.is_finite rate)
      then err CostError.funding_rate
      else ok (f.mul (f.neg (f.mul quantity mark)) rate)

  -- `adverse_fill_price`
  unfoldable pub adverse_fill_price : (reference delta rate : F) → F
  adverse_fill_price reference delta rate =
      if f.lt f.nought delta
      then f.mul reference (f.add f.unit rate)
      else if f.lt delta f.nought
      then f.mul reference (f.sub f.unit rate)
      else reference

  module _ ⦃m : FloatMath F⦄ where
    -- `fee_rate`
    unfoldable pub fee_rate : Fee F → Result CostError F
    fee_rate c = elim c.model [
      | CostModel.zero_cost ↦ ok f.nought
      | CostModel.fixed_bps ↦ elim c.taker_bps [
        | none ↦ err CostError.missing_taker_bps
        | some bps ↦ ok (m.div bps m.ten_thousand)
      ]
    ]

    -- `slippage_rate`
    unfoldable pub slippage_rate : Slippage F → Result CostError F
    slippage_rate c = elim c.model [
      | CostModel.zero_cost ↦ ok f.nought
      | CostModel.fixed_bps ↦ elim c.bps [
        | none ↦ err CostError.missing_slippage_bps
        | some bps ↦ ok (m.div bps m.ten_thousand)
      ]
    ]

    -- `updated_average_entry`
    unfoldable pub updated_average_entry :
        (old_quantity new_quantity : F) → Option F → (price : F) → Option F
    updated_average_entry old_quantity new_quantity old_average price =
        if f.lt (f.abs new_quantity) m.tiny then none else elim old_average [
          | none ↦ some price
          | some average ↦
              if f.le (f.mul old_quantity new_quantity) f.nought
              then some price
              else if f.le (f.abs new_quantity) (f.abs old_quantity)
              then some average
              else some (
                  m.div
                    (f.add (f.mul (f.abs old_quantity) average)
                      (f.mul (f.abs (f.sub new_quantity old_quantity)) price))
                    (f.abs new_quantity))
        ]
