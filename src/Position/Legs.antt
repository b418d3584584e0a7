-- ===== src/Position/Legs.antt =====
-- What a selection asks for, as a leg that closes and a leg that opens: `_base_notional`,
-- `_reverse_legs`, the first branches of `_process_one`, and `_round_delta`.
use bfbt.Base.{ℕ, Bool, true, false, not, ◌||◌, Option, none, some, if◌then◌else◌}
use bfbt.Config.Sizing.{SizingMode, ReversePolicy, ZeroPositionPolicy}
use bfbt.Contracts.{ReasonCode}
use bfbt.Dict.{lookup}
use bfbt.Exec.{Result, ok, err}
use bfbt.Float.{Float, FloatMath}
use bfbt.Rank.Row.{Side}
use bfbt.Position.State.{PositionError, Position, Account, Engine}
use bfbt.Position.Execute.{sign_of}

-- A row of the selections. A side that is no known word is none.
pub record SelectionRow (F : Type 0) : Type 0 where
  pub signal_time : Option ℕ
  pub symbol : ℕ
  pub side : Option Side
  pub rank_source_time : Option ℕ
  pub target_weight : Option F

pub record Selection (F : Type 0) : Type 0 where
  pub symbol : ℕ
  pub side : Side
  pub rank_source_time : Option ℕ
  pub target_weight : Option F

-- The base and the two legs of a trade, or the reason why there is none.
pub data Plan (F : Type 0) : Type 0 where
  sized : (base close_leg opening_leg : F) → Plan F
  skipped : ReasonCode → Plan F

unfoldable pub is_long : Side → Bool
is_long Side.long = true
is_long _ = false

unfoldable pub is_target : SizingMode → Bool
is_target SizingMode.target_weight = true
is_target _ = false

module _ {F : Type 0} ⦃f : Float F⦄ where
  -- What `assert x is not None` leaves.
  unfoldable pub assert_some : Option F → (F → F) → Result PositionError (Option F)
  assert_some none g = err PositionError.assertion
  assert_some (some x) g = ok (some (g x))

  -- `_base_notional`; none is the skip of a zero position.
  unfoldable pub base_notional :
      Engine F → Account F → (old_notional sizing_equity : F) → Result PositionError (Option F)
  unfolding assert_some
  base_notional e s old equity = elim e.sizing.mode [
    | SizingMode.fixed_margin ↦ assert_some e.sizing.margin_amount (λ x. f.mul x e.leverage)
    | SizingMode.rolling_margin ↦ assert_some s.rolling_margin (λ x. f.mul x e.leverage)
    | SizingMode.fixed_notional ↦ assert_some e.sizing.notional_amount (λ x. x)
    | SizingMode.equity_margin_fraction ↦
        assert_some e.sizing.fraction (λ x. f.mul (f.mul x equity) e.leverage)
    | SizingMode.equity_fraction ↦ assert_some e.sizing.fraction (λ x. f.mul x equity)
    | SizingMode.target_weight ↦ err PositionError.assertion
    | SizingMode.position_fraction ↦ elim e.sizing.fraction [
      | none ↦ err PositionError.assertion
      | some fraction ↦
          if f.lt f.epsilon (f.abs old)
          then ok (some (f.mul fraction (f.abs old)))
          else elim e.sizing.zero_position_policy [
            | none ↦ err PositionError.assertion
            | some policy ↦ elim policy [
              | ZeroPositionPolicy.skip ↦ ok none
              | ZeroPositionPolicy.raise_error ↦ err PositionError.zero_positions
              | ZeroPositionPolicy.bootstrap_fixed_notional ↦
                  assert_some e.sizing.bootstrap_notional_amount (λ x. x)
            ]
          ]
    ]
  ]

  -- `_reverse_legs`
  unfoldable pub reverse_legs :
      Engine F → (old_notional signed_base : F) → Result PositionError (F × F)
  reverse_legs e old base =
      if f.le (f.abs old) f.epsilon || f.lt f.nought (f.mul old base)
      then ok (f.nought, base)
      else elim e.sizing.reverse_policy [
        | none ↦ err PositionError.assertion
        | some policy ↦ elim policy [
          | ReversePolicy.flatten_only ↦ ok (f.neg old, f.nought)
          | ReversePolicy.flatten_then_open ↦ ok (f.neg old, base)
          | ReversePolicy.net_delta ↦
              if f.le (f.abs base) (f.abs old)
              then ok (base, f.nought)
              else ok (f.neg old, f.add base old)
        ]
      ]

  -- The legs of a target weight.
  unfoldable pub target_legs : (old_notional target_notional : F) → F × F
  target_legs old target =
      if f.lt (f.mul old target) f.nought
      then (f.neg old, target)
      else if f.lt (f.abs target) (f.abs old)
      then (f.sub target old, f.nought)
      else (f.nought, f.sub target old)

  -- The incremental branch of `_process_one`.
  unfoldable pub plan_increment :
      Engine F → Account F → Side → (old_notional sizing_equity : F) → Result PositionError (Plan F)
  unfolding base_notional reverse_legs is_long
  plan_increment e s side old equity = elim (base_notional e s old equity) [
    | err x ↦ err x
    | ok found ↦ elim found [
      | none ↦ ok (Plan.skipped ReasonCode.zero_position_skipped)
      | some base ↦ elim (reverse_legs e old (if is_long side then base else f.neg base)) [
        | err x ↦ err x
        | ok legs ↦ ok (Plan.sized base legs.0 legs.1)
      ]
    ]
  ]

  -- The branches of `_process_one` on the side and the mode.
  unfoldable pub plan_of :
      Engine F
      → Account F
      → Selection F
      → (old_notional sizing_equity : F) → Result PositionError (Plan F)
  unfolding plan_increment target_legs is_target
  plan_of e s row old equity = elim row.side [
    | Side.flat ↦ ok (Plan.sized (f.abs old) (f.neg old) f.nought)
    | _ ↦
        if is_target e.sizing.mode
        then elim row.target_weight [
          | none ↦ err PositionError.null_weight
          | some weight ↦
              let target = f.mul weight equity in
              let legs = target_legs old target in ok (Plan.sized (f.abs target) legs.0 legs.1)
        ]
        else plan_increment e s row.side old equity
  ]

  module _ ⦃m : FloatMath F⦄ where
    -- A quantity in whole steps; `floor` raises where it is given no finite number.
    unfoldable pub round_quantity : (step quantity below : F) → Result PositionError F
    unfolding sign_of
    round_quantity step quantity below =
        let steps = f.add (m.div (f.abs quantity) step) f.epsilon in
        if not (f.lt f.epsilon (f.abs quantity))
        then ok below
        else if not (f.is_finite steps)
        then err PositionError.floor_undefined
        else ok (f.mul (f.mul (sign_of quantity) (m.floor steps)) step)

    -- The quantity of the closing leg, which closes the whole position where it covers it.
    unfoldable pub close_quantity :
        Option (Position F) → (step price close_delta : F) → Result PositionError F
    unfolding round_quantity
    close_quantity none step price close =
        round_quantity step (m.div close price) (m.div close price)
    close_quantity (some p) step price close =
        if f.le (f.abs (f.add close (f.mul p.quantity price))) f.epsilon
        then ok (f.neg p.quantity)
        else round_quantity step (m.div close price) (m.div close price)

    -- `_round_delta`
    unfoldable pub round_delta :
        Engine F → Account F → ℕ → (price close_delta opening_delta : F) → Result PositionError F
    unfolding close_quantity round_quantity
    round_delta e s symbol price close opening = elim (lookup symbol e.quantity_steps) [
      | none ↦ ok (f.add close opening)
      | some step ↦ elim (close_quantity (lookup symbol s.positions) step price close) [
        | err x ↦ err x
        | ok closed ↦ elim (round_quantity step (m.div opening price) f.nought) [
          | err x ↦ err x
          | ok opened ↦ ok (f.mul (f.add closed opened) price)
        ]
      ]
    ]
