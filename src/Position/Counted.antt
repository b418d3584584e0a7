-- ===== src/Position/Counted.antt =====
-- A batch that returns advances the clock and numbers its instructions without a gap.
use bfbt.Base.{
  ℕ, suc, ◌+◌, ◌≡◌, refl, ap, inl, inr, not, ◌&&◌, Option, List, [], ◌∷◌, leb, Bool-cases, is_some,
  length,
}
use bfbt.Dict.{Dict, lookup, contains}
use bfbt.Exec.Post.{Post, kept-Post, continue-Post, lift-Post, raise_if-Post}
use bfbt.Exec.Keeps.{Keeps, continue-Keeps}
use bfbt.Float.{Float, FloatMath}
use bfbt.Position.State.{PositionError, Position, Account, Engine, is_rolling}
use bfbt.Position.Value.{price_of, account_value}
use bfbt.Position.Tracked.{track_rolling-Keeps}
use bfbt.Position.Execute.{quantity_of, realized, traded_quantity, track_rolling, fill, execute}
use bfbt.Position.Legs.{Selection, Plan, plan_of, round_delta}
use bfbt.Position.Selections.{Instruction, Trade, Totals}
use bfbt.Position.Process.{
  instruction_row, notional_of, constrain, trade_legs, no_trade, follow_plan, process_one,
}
use bfbt.Position.Batch.{add_totals, process_rows}

module _ {F : Type 0} ⦃f : Float F⦄ where
  -- The sequence and the last decision time are these.
  abbrev pub Counts : ℕ → Option ℕ → Account F → Type 0
  Counts n o s = (s.sequence ≡ n) × (s.last_decision_time ≡ o)

  module _ ⦃m : FloatMath F⦄ where
    fill-Counts :
        (n : ℕ) (o : Option ℕ) (e : Engine F) (symbol : ℕ) (old : Option (Position F))
        (delta traded new price : F)
        → Keeps (Counts n o) (fill e symbol old delta traded new price)
    unfolding fill
    fill-Counts n o e symbol old delta traded new price s h =
        let gain = realized old traded price in
        let fee = f.mul (f.abs delta) e.fee_rate in
        let slippage = f.mul (f.abs delta) e.slippage_rate in
        let paid : Account F = record s {
          cash_balance = f.add s.cash_balance (f.sub (f.sub gain fee) slippage);
        } in
        let same =
          track_rolling-Keeps s.positions n o e old new price gain fee slippage paid
            (refl, h.0, h.1) in
        continue-Keeps (Counts n o) (track_rolling e old new price gain fee slippage paid) _
          (same.1, same.2) (λ u t k. k)

    pub execute-Counts :
        (n : ℕ) (o : Option ℕ) (e : Engine F) (symbol : ℕ) (delta price : F)
        → Keeps (Counts n o) (execute e symbol delta price)
    unfolding execute
    execute-Counts n o e symbol delta price s h =
        let old = lookup symbol s.positions in
        let traded = traded_quantity old delta price in
        let new = f.add (quantity_of old) traded in
        elim (Bool-cases (f.le (f.abs delta) f.epsilon)) [
          | inl x ↦ rw (x) h
          | inr x ↦
              elim (Bool-cases (
                is_rolling e.sizing.mode
                && is_some old
                && f.lt (f.mul (quantity_of old) new) (f.neg f.epsilon))) [
                  | inl y ↦ rw (x, y) h
                  | inr y ↦ rw (x, y) (fill-Counts n o e symbol old delta traded new price s h)
                ]
        ]

    -- The instruction took the number after `n`, and the clock stands.
    abbrev pub IsNext : ℕ → Option ℕ → ℕ → Engine F → Instruction F → Account F → Type 0
    IsNext n o time e x t =
        Counts (n + 1) o t
        × (x.instruction_id
            ≡ e.digest (record {
              sequence = n + 1;
              decision_time = time;
              symbol = x.symbol;
              side = x.side;
            }))

    -- The instructions took the numbers after `n`, in order, and the clock stands.
    abbrev pub AreNext : ℕ → Option ℕ → ℕ → Engine F → List (Instruction F) → Account F → Type 0
    AreNext n o time e [] t = Counts n o t
    AreNext n o time e (x ∷ xs) t =
        (x.instruction_id
          ≡ e.digest
              (record { sequence = n + 1; decision_time = time; symbol = x.symbol; side = x.side }))
        × AreNext (n + 1) o time e xs t

    module _ (e : Engine F) (time : ℕ) (marks : Dict F) (o : Option ℕ) where
      pub instruction_row-IsNext :
          (n : ℕ) (row : Selection F) (trade : Trade F) (s : Account F)
          → Counts n o s
          → Post (IsNext n o time e) (instruction_row e time marks row trade s)
      unfolding instruction_row
      instruction_row-IsNext n row trade s h =
          let t : Account F = record s { sequence = s.sequence + 1 } in
          lift-Post (IsNext n o time e)
            (account_value e time marks (f.abs trade.constrained_delta) trade.fee_cost
              trade.slippage_cost t)
            t _
            (λ a _. (
              (ap (λ k. k + 1) h.0, h.1),
              ap
                  (λ k. e.digest (record {
                    sequence = k + 1;
                    decision_time = time;
                    symbol = trade.symbol;
                    side = trade.side;
                  }))
                  h.0,
            ))

      follow_plan-IsNext :
          (n : ℕ) (equity turnover : F) (row : Selection F) (old : F) (plan : Plan F)
          (s : Account F)
          → Counts n o s
          → Post (IsNext n o time e) (follow_plan e time marks equity turnover row old plan s)
      unfolding follow_plan trade_legs
      follow_plan-IsNext n equity turnover row old (Plan.skipped reason) s h =
          instruction_row-IsNext n row (no_trade row old reason) s h
      follow_plan-IsNext n equity turnover row old (Plan.sized base close opening) s h =
          let price = price_of marks row.symbol in
          let held = notional_of marks row.symbol s in
          let cut = constrain e marks equity turnover s row.symbol held close opening in
          lift-Post (IsNext n o time e) (round_delta e s row.symbol price cut.0 cut.1) s _
            (λ delta _.
              raise_if-Post (IsNext n o time e)
                (not (contains row.symbol s.positions)
                  && f.lt f.epsilon (f.abs delta)
                  && leb e.max_position_state_rows (length s.positions))
                PositionError.too_many_rows s _
                (λ _.
                  continue-Post (λ costs t. Counts n o t) (IsNext n o time e)
                    (execute e row.symbol delta price s) _
                    (kept-Post (Counts n o) (execute e row.symbol delta price s)
                      (execute-Counts n o e row.symbol delta price s h))
                    (λ costs t k. instruction_row-IsNext n row _ t k)))

      process_one-IsNext :
          (n : ℕ) (equity turnover : F) (row : Selection F) (s : Account F)
          → Counts n o s
          → Post (IsNext n o time e) (process_one e time marks equity turnover row s)
      unfolding process_one
      process_one-IsNext n equity turnover row s h =
          let old = notional_of marks row.symbol s in
          raise_if-Post (IsNext n o time e) (not (contains row.symbol marks))
            PositionError.missing_mark s _
            (λ _.
              lift-Post (IsNext n o time e) (plan_of e s row old equity) s _
                (λ plan _. follow_plan-IsNext n equity turnover row old plan s h))

      pub process_rows-AreNext :
          (n : ℕ) (equity : F) (totals : Totals F) (rows : List (Selection F)) (s : Account F)
          → Counts n o s
          → Post
              (λ z t. AreNext n o time e z.0 t × (length z.0 ≡ length rows))
              (process_rows e time marks equity totals rows s)
      unfolding process_rows
      process_rows-AreNext n equity totals [] s h = (h, refl)
      process_rows-AreNext n equity totals (row ∷ rows) s h =
          continue-Post (IsNext n o time e)
            (λ z t. AreNext n o time e z.0 t × (length z.0 ≡ length (row ∷ rows)))
            (process_one e time marks equity totals.turnover row s) _
            (process_one-IsNext n equity totals.turnover row s h)
            (λ x t k.
              let next =
                add_totals totals x.constrained_delta_notional x.fee_cost x.slippage_cost in
              continue-Post (λ z u. AreNext (n + 1) o time e z.0 u × (length z.0 ≡ length rows))
                (λ z u. AreNext n o time e z.0 u × (length z.0 ≡ length (row ∷ rows)))
                (process_rows e time marks equity next rows t) _
                (process_rows-AreNext (n + 1) equity next rows t k.0)
                (λ z u l. ((k.1, l.0), ap suc l.1)))
