-- ===== src/Position/Safe.antt =====
-- With a validated sizing no assertion of the sizing fails, and a round settles within its bounds.
use bfbt.Base.{
  ◌+◌, ◌≡◌, ◌∙◌, ◌≢◌, inl, inr, true, false, none, some, arith, if◌then◌else◌, Bool-cases,
  Option-cases, is_some,
}
use bfbt.Config.Sizing.{
  SizingMode, PositionSizing, required_amount, validate_incremental, validate_zero_policy,
  validate_rest, is_within, validate_margins, validate_rolling, validate_mode, validate_mode_fields,
}
use bfbt.Config.Sized.{validate_mode_fields-IsRolling}
use bfbt.Exec.{Result, ok, err}
use bfbt.Exec.Laws.{Result-cases, or_raise-eq-ok}
use bfbt.Float.{Float, IsTotal}
use bfbt.Rank.Row.{Side}
use bfbt.Position.State.{PositionError, Account, Engine, is_rolling, initial, is_infinite}
use bfbt.Position.Execute.{
  count_reset, reset_reason, settled_margin, settle_with, settle_rolling_round,
}
use bfbt.Position.Legs.{
  Selection, is_long, is_target, assert_some, base_notional, reverse_legs, plan_increment, plan_of,
}

-- The call does not fail an assertion.
abbrev pub NeverAsserts : {A : Type 0} → Result PositionError A → Type 0
NeverAsserts r = r ≢ err PositionError.assertion

module _ {F : Type 0} ⦃f : Float F⦄ where
  reverse_legs-NeverAsserts :
      (e : Engine F) (old base : F)
      → is_some e.sizing.reverse_policy ≡ true
      → NeverAsserts (reverse_legs e old base)
  unfolding reverse_legs
  reverse_legs-NeverAsserts e old base h r = ground (arith, h, r)

  base_notional-NeverAsserts :
      (e : Engine F) (s : Account F) (old equity : F)
      → validate_mode_fields e.sizing ≡ ok tt
      → is_target e.sizing.mode ≡ false
      → (is_rolling e.sizing.mode ≡ true → is_some s.rolling_margin ≡ true)
      → NeverAsserts (base_notional e s old equity)
  unfolding base_notional assert_some validate_mode_fields validate_mode validate_incremental
      validate_rest validate_zero_policy required_amount is_target
  base_notional-NeverAsserts e s old equity h t k r = ground (arith, h, t, k, r)

  has_policy :
      (c : PositionSizing F)
      → validate_mode_fields c ≡ ok tt
      → is_target c.mode ≡ false
      → is_some c.reverse_policy ≡ true
  unfolding validate_mode_fields validate_mode validate_incremental validate_rolling
      validate_margins is_target
  has_policy c h t = ground (arith, h, t)

  plan_increment-NeverAsserts :
      (e : Engine F) (s : Account F) (side : Side) (old equity : F)
      → validate_mode_fields e.sizing ≡ ok tt
      → is_target e.sizing.mode ≡ false
      → (is_rolling e.sizing.mode ≡ true → is_some s.rolling_margin ≡ true)
      → NeverAsserts (plan_increment e s side old equity)
  unfolding plan_increment
  plan_increment-NeverAsserts e s side old equity h t k r =
      let sized = base_notional-NeverAsserts e s old equity h t k in
      elim (Result-cases (base_notional e s old equity)) [
        | inl (x, c) ↦ sized (c ∙ ground (arith, c, r))
        | inr (found, c) ↦ elim (Option-cases found) [
          | inl n ↦ ground (arith, c, n, r)
          | inr (base, n) ↦ ground (
            arith,
            c,
            n,
            r,
            reverse_legs-NeverAsserts e old (if is_long side then base else f.neg base)
                (has_policy e.sizing h t),
          )
        ]
      ]

  -- With a sizing that passed its validator, and with a current margin where the sizing is a rolling
  -- one, no selection fails an assertion of the sizing or of the reversal.
  pub plan_of-NeverAsserts :
      (e : Engine F) (s : Account F) (row : Selection F) (old equity : F)
      → validate_mode_fields e.sizing ≡ ok tt
      → (is_rolling e.sizing.mode ≡ true → is_some s.rolling_margin ≡ true)
      → NeverAsserts (plan_of e s row old equity)
  unfolding plan_of
  plan_of-NeverAsserts e s row old equity h k r = elim (Bool-cases (is_target e.sizing.mode)) [
    | inl t ↦ ground (arith, t, r)
    | inr t ↦ ground (arith, t, r, plan_increment-NeverAsserts e s row.side old equity h t k)
  ]

  settle_with-settled :
      (active low high reset : F) (s : Account F) {t : Account F}
      → ⦃o : IsTotal F⦄ → f.is_finite low ≡ true
      → f.is_finite high ≡ true
      → is_within low high reset ≡ true
      → settle_with active low high reset s ≡ (ok tt, t)
      → (margin : F) × (t.rolling_margin ≡ some margin)
        × (is_within low high margin ≡ true)
        × (t.rolling_active_margin ≡ none)
        × (t.rolling_round_net_pnl ≡ f.nought)
        × (t.positions ≡ s.positions)
        × (t.cash_balance ≡ s.cash_balance)
        × (t.rolling_reset_count
            ≡ s.rolling_reset_count + (if is_some t.rolling_last_reset_reason then 1 else 0))
  unfolding settle_with settled_margin reset_reason count_reset
  settle_with-settled active low high reset s {t} ⦃o⦄ fl fh w r =
      let candidate = f.add active s.rolling_round_net_pnl in
      let finite : f.is_finite (settled_margin low high reset candidate) ≡ true =
        ground (arith, r) in
      let below = o.le_of_lt_false candidate low in
      let above = o.le_of_lt_false high candidate in
      (
        settled_margin low high reset candidate,
        ground (arith, r),
        ground (arith, finite, below, above, w),
        ground (arith, r),
        ground (arith, r),
        ground (arith, r),
        ground (arith, r),
        ground (arith, r),
      )

  within_same :
      {low high x low' high' x' : F}
      → low' ≡ low
      → high' ≡ high
      → x' ≡ x
      → is_within low high x ≡ true
      → is_within low' high' x' ≡ true
  within_same p q r h = rw (p, q, r) h

  -- The state after a round that settled with the margin.
  pub record IsSettled (low high margin : F) (s t : Account F) : Type 0 where
    pub margin_set : t.rolling_margin ≡ some margin
    pub margin_within : is_within low high margin ≡ true
    pub round_closed : t.rolling_active_margin ≡ none
    pub pnl_cleared : t.rolling_round_net_pnl ≡ f.nought
    pub positions_kept : t.positions ≡ s.positions
    pub cash_kept : t.cash_balance ≡ s.cash_balance
    pub reset_counted :
        t.rolling_reset_count
        ≡ s.rolling_reset_count + (if is_some t.rolling_last_reset_reason then 1 else 0)

  -- With a validated rolling sizing whose bounds are finite, a settlement that returns leaves a
  -- margin within the configured bounds, no active margin, a cleared round, the same cash and
  -- positions, and a count of resets that rose by one if it names a reset reason, else not at all.
  pub settle_rolling_round-IsSettled :
      ⦃o : IsTotal F⦄
      → (e : Engine F) (s : Account F) {t : Account F} → e.sizing.mode ≡ SizingMode.rolling_margin
      → validate_mode_fields e.sizing ≡ ok tt
      → is_infinite e.sizing.rolling_min_margin ≡ false
      → is_infinite e.sizing.rolling_max_margin ≡ false
      → settle_rolling_round e s ≡ (ok tt, t)
      → (low : F) × (high : F) × (margin : F) × (e.sizing.rolling_min_margin ≡ some low)
        × (e.sizing.rolling_max_margin ≡ some high)
        × IsSettled low high margin s t
  unfolding settle_rolling_round
  settle_rolling_round-IsSettled ⦃o⦄ e s {t} mode valid fl fh r =
      let (initial, reset, low, high, c) = validate_mode_fields-IsRolling e.sizing mode valid in
      let (active, a, r1) =
        or_raise-eq-ok s.rolling_active_margin PositionError.no_active_margin s _ r in
      let (low', b, r2) =
        or_raise-eq-ok e.sizing.rolling_min_margin PositionError.assertion s _ r1 in
      let (high', d, r3) =
        or_raise-eq-ok e.sizing.rolling_max_margin PositionError.assertion s _ r2 in
      let (reset', g, r4) =
        or_raise-eq-ok e.sizing.rolling_reset_margin PositionError.assertion s _ r3 in
      let same_low : low' ≡ low = ground (arith, b, c.min_set) in
      let same_high : high' ≡ high = ground (arith, d, c.max_set) in
      let same_reset : reset' ≡ reset = ground (arith, g, c.reset_set) in
      let within : is_within low' high' reset' ≡ true =
        within_same same_low same_high same_reset c.reset_within in
      let (margin, p1, p2, p3, p4, p5, p6, p7) =
        settle_with-settled active low' high' reset' s {t = t} (ground (arith, b, fl))
          (ground (arith, d, fh)) within r4 in
      (
        low',
        high',
        margin,
        b,
        d,
        record {
          margin_set = p1;
          margin_within = p2;
          round_closed = p3;
          pnl_cleared = p4;
          positions_kept = p5;
          cash_kept = p6;
          reset_counted = p7;
        },
      )
