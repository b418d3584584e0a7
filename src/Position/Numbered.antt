-- ===== src/Position/Numbered.antt =====
-- `process` as a whole: its clock and the numbers of its instructions.
use bfbt.Base.{
  ℕ, ◌+◌, ◌≡◌, refl, sym, subst, inl, inr, Bool, false, not, ◌&&◌, Option, some, List, [], ◌∷◌,
  ◌++◌, arith, Bool-cases, length,
}
use bfbt.Contracts.{ReasonCode}
use bfbt.Dict.{Dict, contains}
use bfbt.Exec.{ok}
use bfbt.Exec.Post.{Post, Post-ok, kept-Post, continue-Post, lift-Post, raise_if-Post, Post-map}
use bfbt.Float.{Float, FloatMath}
use bfbt.Position.State.{PositionError, Account, Engine}
use bfbt.Position.Value.{price_of, validate_marks, account_value}
use bfbt.Position.Execute.{execute}
use bfbt.Position.Legs.{Selection}
use bfbt.Position.Selections.{
  Instruction, Totals, InstructionBatch, SelectionFrame, is_single, is_ignored, is_stale,
  selection_rows, check_batch,
}
use bfbt.Position.Process.{instruction_row, notional_of, no_trade}
use bfbt.Position.Batch.{
  no_totals, add_totals, process_rows, replace_one, replace_all, replaced_symbols, replace_held,
  process_batch, process,
}
use bfbt.Position.Counted.{
  Counts, execute-Counts, IsNext, AreNext, instruction_row-IsNext, process_rows-AreNext,
}
use bfbt.Position.Reach.{check_batch-same}

module _ {F : Type 0} ⦃f : Float F⦄ ⦃m : FloatMath F⦄ where
  -- The instructions took the numbers after `n`, and the clock is at the decision.
  abbrev pub IsNumbered : Engine F → ℕ → ℕ → InstructionBatch F → Account F → Type 0
  IsNumbered e time n b t =
      AreNext n (some time) time e b.instructions t
      × (t.sequence ≡ n + length b.instructions)
      × (t.last_decision_time ≡ some time)

module _ {F : Type 0} ⦃f : Float F⦄ ⦃m : FloatMath F⦄ (e : Engine F) (time : ℕ) (o : Option ℕ) where
  AreNext-Counts :
      (n : ℕ) (xs : List (Instruction F)) (t : Account F)
      → AreNext n o time e xs t
      → Counts (n + length xs) o t
  AreNext-Counts n [] t h = (omega (arith, h.0), h.1)
  AreNext-Counts n (x ∷ xs) t (h, hs) =
      let rest = AreNext-Counts (n + 1) xs t hs in (omega (arith, rest.0), rest.1)

  AreNext-append :
      (n : ℕ) (xs ys : List (Instruction F)) (t u : Account F)
      → AreNext n o time e xs t
      → AreNext (n + length xs) o time e ys u
      → AreNext n o time e (xs ++ ys) u
  AreNext-append n [] ys t u h k =
      let same : n + 0 ≡ n = omega arith in subst (λ z. AreNext z o time e ys u) same k
  AreNext-append n (x ∷ xs) ys t u (h, hs) k =
      let same : n + length (x ∷ xs) ≡ n + 1 + length xs = omega arith in
      (h, AreNext-append (n + 1) xs ys t u hs (subst (λ z. AreNext z o time e ys u) same k))

  module _ (marks : Dict F) where
    replace_one-IsNext :
        (n : ℕ) (row : Selection F) (symbol : ℕ) (s : Account F)
        → Counts n o s
        → Post (IsNext n o time e) (replace_one e time marks row symbol s)
    unfolding replace_one
    replace_one-IsNext n row symbol s h =
        let old = notional_of marks symbol s in
        let paid = execute e symbol (f.neg old) (price_of marks symbol) s in
        continue-Post (λ costs t. Counts n o t) (IsNext n o time e) paid _
          (kept-Post (Counts n o) paid
            (execute-Counts n o e symbol (f.neg old) (price_of marks symbol) s h))
          (λ costs t k. instruction_row-IsNext e time marks o n row _ t k)

    replace_all-AreNext :
        (n : ℕ) (row : Selection F) (totals : Totals F) (symbols : List ℕ) (s : Account F)
        → Counts n o s
        → Post (λ z t. AreNext n o time e z.0 t) (replace_all e time marks row totals symbols s)
    unfolding replace_all
    replace_all-AreNext n row totals [] s h = h
    replace_all-AreNext n row totals (symbol ∷ symbols) s h =
        continue-Post (IsNext n o time e) (λ z t. AreNext n o time e z.0 t)
          (replace_one e time marks row symbol s) _ (replace_one-IsNext n row symbol s h)
          (λ x t k.
            let next = add_totals totals x.constrained_delta_notional x.fee_cost x.slippage_cost in
            continue-Post (λ z u. AreNext (n + 1) o time e z.0 u) (λ z u. AreNext n o time e z.0 u)
              (replace_all e time marks row next symbols t) _
              (replace_all-AreNext (n + 1) row next symbols t k.0) (λ z u l. (k.1, l)))

    replace_held-AreNext :
        (n : ℕ) (equity : F) (rows : List (Selection F)) (s : Account F)
        → Counts n o s
        → Post (λ z t. AreNext n o time e z.0 t) (replace_held e time marks equity rows s)
    unfolding replace_held
    replace_held-AreNext n equity [] s h = h
    replace_held-AreNext n equity (row ∷ rest) s h =
        elim (Bool-cases (not (is_single e.holding.mode))) [
          | inl x ↦ rw (x) h
          | inr x ↦
              elim (Bool-cases
                (contains row.symbol s.positions && is_ignored e.holding.existing_signal)) [
                  | inl y ↦
                      let trade =
                        no_trade row (notional_of marks row.symbol s) ReasonCode.already_held in
                      rw (x, y)
                        (continue-Post (IsNext n o time e) (λ z t. AreNext n o time e z.0 t)
                          (instruction_row e time marks row trade s) _
                          (instruction_row-IsNext e time marks o n row trade s h)
                          (λ z t k. (k.1, k.0)))
                  | inr y ↦
                      let closed =
                        replace_all e time marks row no_totals (replaced_symbols row.symbol s) s in
                      rw (x, y)
                        (continue-Post (λ z t. AreNext n o time e z.0 t)
                          (λ z t. AreNext n o time e z.0 t) closed _
                          (replace_all-AreNext n row no_totals (replaced_symbols row.symbol s) s h)
                          (λ z t k.
                            lift-Post (λ z t. AreNext n o time e z.0 t)
                              (account_value e time marks z.1.turnover z.1.fee z.1.slippage t) t _
                              (λ v _. k)))
                ]
        ]

  clocked :
      (n : ℕ) (xs : List (Instruction F)) (t : Account F)
      → AreNext n o time e xs t
      → AreNext n (some time) time e xs (record t { last_decision_time = some time })
  clocked n [] t h = (h.0, refl)
  clocked n (x ∷ xs) t (h, hs) = (h, clocked (n + 1) xs t hs)

  process_batch-IsNumbered :
      (marks : Dict F) (n : ℕ) (rows : List (Selection F)) (s : Account F)
      → Counts n o s
      → Post (IsNumbered e time n) (process_batch e time marks rows s)
  unfolding process_batch
  process_batch-IsNumbered marks n rows s h =
      lift-Post (IsNumbered e time n) (account_value e time marks f.nought f.nought f.nought s) s _
        (λ pretrade _.
          continue-Post (λ z t. AreNext n o time e z.0 t) (IsNumbered e time n)
            (replace_held e time marks pretrade.equity rows s) _
            (replace_held-AreNext marks n pretrade.equity rows s h)
            (λ z t k.
              continue-Post
                (λ y u. AreNext (n + length z.0) o time e y.0 u × (length y.0 ≡ length z.3))
                (IsNumbered e time n) (process_rows e time marks z.2 z.1 z.3 t) _
                (process_rows-AreNext e time marks o (n + length z.0) z.2 z.1 z.3 t
                  (AreNext-Counts n z.0 t k))
                (λ y u l.
                  let all = AreNext-append n z.0 y.0 t u k l.0 in
                  let v : Account F = record u { last_decision_time = some time } in
                  lift-Post (IsNumbered e time n)
                    (account_value e time marks y.1.turnover y.1.fee y.1.slippage v) v _
                    (λ a _. (
                      clocked n (z.0 ++ y.0) u all,
                      (AreNext-Counts n (z.0 ++ y.0) u all).0,
                      refl,
                    )))))

module _ {F : Type 0} ⦃f : Float F⦄ ⦃m : FloatMath F⦄ where
  -- A call of `process` that returns has a decision time after the last one, makes it the last one,
  -- and numbers its instructions on from the sequence without a gap, each with the digest of its
  -- number, the decision time, its symbol and its side as its id.
  pub process-IsNumbered :
      (e : Engine F) (time : ℕ) (aware : Bool) (marks : Dict F) (frame : SelectionFrame F)
      (s : Account F) {b : InstructionBatch F} {t : Account F}
      → process e time aware marks frame s ≡ (ok b, t)
      → (is_stale s.last_decision_time time ≡ false) × IsNumbered e time s.sequence b t
  unfolding process
  process-IsNumbered e time aware marks frame s {b} {t} r =
      let Q : InstructionBatch F → Account F → Type 0 =
        λ b t. (is_stale s.last_decision_time time ≡ false) × IsNumbered e time s.sequence b t in
      Post-ok Q (process e time aware marks frame s)
        (raise_if-Post Q (not aware) PositionError.naive_time s _ (λ _.
          raise_if-Post Q (is_stale s.last_decision_time time) PositionError.stale_time s _
            (λ fresh. lift-Post Q (validate_marks e marks s) s _ (λ known _.
              lift-Post Q (selection_rows e frame time) s _ (λ rows _.
                continue-Post (λ u v. v ≡ s) Q (check_batch e known rows s) _
                  (kept-Post (λ v. v ≡ s) (check_batch e known rows s)
                    (check_batch-same e known rows s))
                  (λ u v same.
                    let numbered =
                      process_batch-IsNumbered e time s.last_decision_time known s.sequence rows s
                        (refl, refl) in
                    subst (λ w. Post Q (process_batch e time known rows w)) (sym same)
                      (Post-map (IsNumbered e time s.sequence) Q (process_batch e time known rows s)
                        (λ b t k. (fresh, k)) numbered)))))))
        r
