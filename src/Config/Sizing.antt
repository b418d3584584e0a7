-- ===== src/Config/Sizing.antt =====
-- src/bfbt/config/backtest.py: fees, slippage, sizing, constraints, holding and capital.
use bfbt.Base.{ℕ, Bool, not, ◌&&◌, ◌||◌, Option, none, some, is_some, if◌then◌else◌}
use bfbt.Exec.{Result, ok, err}
use bfbt.Float.{Float}

pub data SizingMode : Type 0 where
  target_weight fixed_margin fixed_notional equity_fraction equity_margin_fraction : SizingMode
  position_fraction rolling_margin : SizingMode

pub data Weighting : Type 0 where
  equal score inverse_volatility : Weighting

pub data ReversePolicy : Type 0 where
  flatten_only flatten_then_open net_delta : ReversePolicy

pub data ZeroPositionPolicy : Type 0 where
  skip raise_error bootstrap_fixed_notional : ZeroPositionPolicy

-- `ValueError` by its message.
pub data SizingError : Type 0 where
  zero_with_bps missing_weighting missing_net_exposure net_beyond_gross : SizingError
  target_with_amounts target_with_reverse rolling_with_amounts rolling_incomplete : SizingError
  rolling_bounds rolling_outside_bounds rolling_with_target rolling_with_net : SizingError
  missing_reverse rolling_with_bootstrap missing_amount foreign_amount : SizingError
  incremental_with_target incremental_with_net missing_zero_policy missing_bootstrap : SizingError
  unexpected_bootstrap foreign_zero_fields foreign_rolling_fields : SizingError
  rolling_holding buffer_too_large missing_taker_bps missing_bps : SizingError

pub record PositionSizing (F : Type 0) : Type 0 where
  pub mode : SizingMode
  pub weighting : Option Weighting
  pub target_gross_exposure : Option F
  pub target_net_exposure : Option F
  pub margin_amount : Option F
  pub notional_amount : Option F
  pub fraction : Option F
  pub reverse_policy : Option ReversePolicy
  pub zero_position_policy : Option ZeroPositionPolicy
  pub bootstrap_notional_amount : Option F
  pub rolling_initial_margin : Option F
  pub rolling_reset_margin : Option F
  pub rolling_min_margin : Option F
  pub rolling_max_margin : Option F

pub record PortfolioConstraints (F : Type 0) : Type 0 where
  pub max_gross_exposure : Option F
  pub max_net_exposure : Option F
  pub max_symbol_weight : Option F
  pub max_symbol_notional : Option F
  pub max_consecutive_adds : Option ℕ
  pub max_turnover : Option F

pub data HoldingMode : Type 0 where
  independent single_position_replace : HoldingMode

pub data ExistingSignal : Type 0 where
  add_signal ignore_signal : ExistingSignal

pub record HoldingPolicy : Type 0 where
  pub mode : HoldingMode
  pub existing_signal : ExistingSignal

-- The currency and the margin model have one value each.
pub record Capital (F : Type 0) : Type 0 where
  pub initial_equity : F
  pub reserved_cost_buffer : F

pub data CostModel : Type 0 where
  fixed_bps zero_cost : CostModel

pub record Fee (F : Type 0) : Type 0 where
  pub model : CostModel
  pub taker_bps : Option F
  pub maker_bps : Option F

pub record Slippage (F : Type 0) : Type 0 where
  pub model : CostModel
  pub bps : Option F

-- `PortfolioV2Config.validate_stateful_sizing`
unfoldable pub validate_stateful_sizing : SizingMode → HoldingPolicy → Result SizingError Unit
validate_stateful_sizing SizingMode.rolling_margin h = elim h.mode [
  | HoldingMode.independent ↦ err SizingError.rolling_holding
  | HoldingMode.single_position_replace ↦ elim h.existing_signal [
    | ExistingSignal.add_signal ↦ err SizingError.rolling_holding
    | ExistingSignal.ignore_signal ↦ ok tt
  ]
]
validate_stateful_sizing _ h = ok tt

module _ {F : Type 0} where
  -- `FeeConfig.validate_model_fields`
  unfoldable pub validate_fee : Fee F → Result SizingError Unit
  validate_fee c = elim c.model [
    | CostModel.fixed_bps ↦ ok tt
    | CostModel.zero_cost ↦
        if is_some c.taker_bps || is_some c.maker_bps then err SizingError.zero_with_bps else ok tt
  ]

  -- `SlippageConfig.validate_model_fields`
  unfoldable pub validate_slippage : Slippage F → Result SizingError Unit
  validate_slippage c = elim c.model [
    | CostModel.fixed_bps ↦ ok tt
    | CostModel.zero_cost ↦ if is_some c.bps then err SizingError.zero_with_bps else ok tt
  ]

  -- `any(value is not None for value in amounts.values())`
  abbrev pub has_amount : PositionSizing F → Bool
  has_amount c = is_some c.margin_amount || is_some c.notional_amount || is_some c.fraction

  abbrev pub has_rolling : PositionSizing F → Bool
  has_rolling c =
      is_some c.rolling_initial_margin
      || is_some c.rolling_reset_margin
      || is_some c.rolling_min_margin
      || is_some c.rolling_max_margin

  -- `amounts[required[self.mode]]`; the two modes without an entry do not ask.
  unfoldable pub required_amount : SizingMode → PositionSizing F → Option F
  required_amount SizingMode.fixed_margin c = c.margin_amount
  required_amount SizingMode.fixed_notional c = c.notional_amount
  required_amount SizingMode.equity_fraction c = c.fraction
  required_amount SizingMode.equity_margin_fraction c = c.fraction
  required_amount SizingMode.position_fraction c = c.fraction
  required_amount SizingMode.target_weight c = none
  required_amount SizingMode.rolling_margin c = none

  -- Whether an amount is set that the mode does not require.
  unfoldable pub has_foreign_amount : SizingMode → PositionSizing F → Bool
  has_foreign_amount SizingMode.fixed_margin c = is_some c.notional_amount || is_some c.fraction
  has_foreign_amount SizingMode.fixed_notional c = is_some c.margin_amount || is_some c.fraction
  has_foreign_amount _ c = is_some c.margin_amount || is_some c.notional_amount

  -- The branch of the modes that add a fixed amount.
  unfoldable pub validate_incremental : SizingMode → PositionSizing F → Result SizingError Unit
  unfolding required_amount has_foreign_amount
  validate_incremental mode c =
      if not (is_some (required_amount mode c))
      then err SizingError.missing_amount
      else if has_foreign_amount mode c
      then err SizingError.foreign_amount
      else if is_some c.weighting || is_some c.target_gross_exposure
      then err SizingError.incremental_with_target
      else if is_some c.target_net_exposure
      then err SizingError.incremental_with_net
      else if not (is_some c.reverse_policy)
      then err SizingError.missing_reverse
      else ok tt

  -- The tests of the zero-position fields where the mode is position_fraction.
  unfoldable pub validate_zero_policy : PositionSizing F → Result SizingError Unit
  validate_zero_policy c = elim c.zero_position_policy [
    | none ↦ err SizingError.missing_zero_policy
    | some policy ↦ elim policy [
      | ZeroPositionPolicy.bootstrap_fixed_notional ↦
          if is_some c.bootstrap_notional_amount then ok tt else err SizingError.missing_bootstrap
      | ZeroPositionPolicy.skip ↦
          if is_some c.bootstrap_notional_amount
          then err SizingError.unexpected_bootstrap
          else ok tt
      | ZeroPositionPolicy.raise_error ↦
          if is_some c.bootstrap_notional_amount
          then err SizingError.unexpected_bootstrap
          else ok tt
    ]
  ]

  -- The tests after the branches on the mode.
  unfoldable pub validate_rest : PositionSizing F → Result SizingError Unit
  unfolding validate_zero_policy
  validate_rest c = elim c.mode [
    | SizingMode.rolling_margin ↦ ok tt
    | SizingMode.position_fraction ↦ elim (validate_zero_policy c) [
      | err e ↦ err e
      | ok u ↦ if has_rolling c then err SizingError.foreign_rolling_fields else ok tt
    ]
    | _ ↦
        if is_some c.zero_position_policy || is_some c.bootstrap_notional_amount
        then err SizingError.foreign_zero_fields
        else if has_rolling c
        then err SizingError.foreign_rolling_fields
        else ok tt
  ]

module _ {F : Type 0} ⦃f : Float F⦄ where
  unfoldable pub validate_target : PositionSizing F → Result SizingError Unit
  validate_target c =
      if not (is_some c.weighting)
      then err SizingError.missing_weighting
      else elim c.target_gross_exposure [
        | none ↦ err SizingError.missing_weighting
        | some gross ↦ elim c.target_net_exposure [
          | none ↦ err SizingError.missing_net_exposure
          | some net ↦
              if f.lt gross (f.abs net)
              then err SizingError.net_beyond_gross
              else if has_amount c
              then err SizingError.target_with_amounts
              else if is_some c.reverse_policy
              then err SizingError.target_with_reverse
              else ok tt
        ]
      ]

  -- `min <= value <= max`
  abbrev pub is_within : F → F → F → Bool
  is_within low high x = f.le low x && f.le x high

  -- The tests of the margins, all of which are there.
  unfoldable pub validate_margins :
      PositionSizing F → (initial reset low high : F) → Result SizingError Unit
  validate_margins c initial reset low high =
      if f.le high low
      then err SizingError.rolling_bounds
      else if not (is_within low high initial && is_within low high reset)
      then err SizingError.rolling_outside_bounds
      else if is_some c.weighting || is_some c.target_gross_exposure
      then err SizingError.rolling_with_target
      else if is_some c.target_net_exposure
      then err SizingError.rolling_with_net
      else if not (is_some c.reverse_policy)
      then err SizingError.missing_reverse
      else if is_some c.zero_position_policy || is_some c.bootstrap_notional_amount
      then err SizingError.rolling_with_bootstrap
      else ok tt

  unfoldable pub validate_rolling : PositionSizing F → Result SizingError Unit
  unfolding validate_margins
  validate_rolling c =
      if has_amount c then err SizingError.rolling_with_amounts else elim c.rolling_initial_margin [
        | none ↦ err SizingError.rolling_incomplete
        | some initial ↦ elim c.rolling_reset_margin [
          | none ↦ err SizingError.rolling_incomplete
          | some reset ↦ elim c.rolling_min_margin [
            | none ↦ err SizingError.rolling_incomplete
            | some low ↦ elim c.rolling_max_margin [
              | none ↦ err SizingError.rolling_incomplete
              | some high ↦ validate_margins c initial reset low high
            ]
          ]
        ]
      ]

  unfoldable pub validate_mode : PositionSizing F → Result SizingError Unit
  unfolding validate_target validate_rolling validate_incremental
  validate_mode c = elim c.mode [
    | SizingMode.target_weight ↦ validate_target c
    | SizingMode.rolling_margin ↦ validate_rolling c
    | _ ↦ validate_incremental c.mode c
  ]

  -- `PositionSizingConfig.validate_mode_fields`
  unfoldable pub validate_mode_fields : PositionSizing F → Result SizingError Unit
  unfolding validate_mode validate_rest
  validate_mode_fields c = elim (validate_mode c) [ err e ↦ err e | ok u ↦ validate_rest c ]

  -- `CapitalConfig.validate_buffer`
  unfoldable pub validate_buffer : Capital F → Result SizingError Unit
  validate_buffer c =
      if f.le c.initial_equity c.reserved_cost_buffer
      then err SizingError.buffer_too_large
      else ok tt
