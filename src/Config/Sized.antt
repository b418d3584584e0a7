-- ===== src/Config/Sized.antt =====
-- What a sizing that passed its validator has.
use bfbt.Base.{◌≡◌, inl, inr, true, some, arith, Option-cases, is_some}
use bfbt.Config.Sizing.{
  SizingMode, PositionSizing, required_amount, validate_incremental, is_within, validate_margins,
  validate_rolling, validate_mode, validate_mode_fields,
}
use bfbt.Exec.{ok}
use bfbt.Exec.Laws.{Result-cases}
use bfbt.Float.{Float}

module _ {F : Type 0} ⦃f : Float F⦄ where
  -- The bounds of the rolling margin, with the two margins between them.
  pub record IsRolling (c : PositionSizing F) (initial reset low high : F) : Type 0 where
    pub initial_set : c.rolling_initial_margin ≡ some initial
    pub reset_set : c.rolling_reset_margin ≡ some reset
    pub min_set : c.rolling_min_margin ≡ some low
    pub max_set : c.rolling_max_margin ≡ some high
    pub initial_within : is_within low high initial ≡ true
    pub reset_within : is_within low high reset ≡ true
    pub has_policy : is_some c.reverse_policy ≡ true

  validate_rolling-IsRolling :
      (c : PositionSizing F)
      → validate_rolling c ≡ ok tt
      → (initial : F) × (reset : F) × (low : F) × (high : F) × IsRolling c initial reset low high
  unfolding validate_rolling validate_margins
  validate_rolling-IsRolling c h = elim (Option-cases c.rolling_initial_margin) [
    | inl e ↦ absurd (ground (arith, e, h))
    | inr (initial, e) ↦ elim (Option-cases c.rolling_reset_margin) [
      | inl e' ↦ absurd (ground (arith, e, e', h))
      | inr (reset, e') ↦ elim (Option-cases c.rolling_min_margin) [
        | inl k ↦ absurd (ground (arith, e, e', k, h))
        | inr (low, k) ↦ elim (Option-cases c.rolling_max_margin) [
          | inl k' ↦ absurd (ground (arith, e, e', k, k', h))
          | inr (high, k') ↦ (
            initial,
            reset,
            low,
            high,
            record {
              initial_set = e;
              reset_set = e';
              min_set = k;
              max_set = k';
              initial_within = ground (arith, e, e', k, k', h);
              reset_within = ground (arith, e, e', k, k', h);
              has_policy = ground (arith, e, e', k, k', h);
            },
          )
        ]
      ]
    ]
  ]

  pub validate_mode_fields-IsRolling :
      (c : PositionSizing F)
      → c.mode ≡ SizingMode.rolling_margin
      → validate_mode_fields c ≡ ok tt
      → (initial : F) × (reset : F) × (low : F) × (high : F) × IsRolling c initial reset low high
  unfolding validate_mode_fields validate_mode
  validate_mode_fields-IsRolling c r h =
      validate_rolling-IsRolling c (ground (arith, r, h, Result-cases (validate_rolling c)))

  -- What the incremental modes have.
  validate_incremental-some :
      (mode : SizingMode) (c : PositionSizing F)
      → validate_incremental mode c ≡ ok tt
      → (is_some (required_amount mode c) ≡ true) × (is_some c.reverse_policy ≡ true)
  unfolding validate_incremental
  validate_incremental-some mode c h = (ground (arith, h), ground (arith, h))
