-- ===== src/Risk/Numbers.antt =====
-- Each event of `evaluate` takes the next number of the machine.
use bfbt.Base.{
  ℕ, ◌+◌, ◌≡◌, refl, ap, ◌∙◌, subst, Option, none, some, List, [], ◌∷◌, ◌++◌, arith, length,
  length-append, Bool-cases, Option-cases, inl, inr, ltb,
}
use bfbt.Config.ExitRules.{TriggerPrice}
use bfbt.Dict.{Dict, lookup, contains, sort, union_size}
use bfbt.Exec.{ok}
use bfbt.Exec.Laws.{
  ok-injective, continue-eq-ok, lift-eq-ok, raise_if-eq-ok, or_raise-eq-ok, if-cases,
}
use bfbt.Float.{Float}
use bfbt.Risk.State.{
  RiskPosition, PositionRow, RiskState, Machine, Frame, BarRow, PositionInput, Snapshot, RiskEvent,
  event,
}
use bfbt.Risk.Trigger.{Hit, PortfolioHit, symbol_trigger}
use bfbt.Risk.Evaluate.{
  RiskEvaluation, evaluate, advance, close_all, close_one, fire_portfolio, fire_events, fraction_of,
  exhausted, fire_symbol, fire_if_hit, check_symbol, evaluate_symbol, evaluate_symbols,
}
use bfbt.Risk.Runs.{evaluate-Evaluated}

module _ {F : Type 0} ⦃f : Float F⦄ (m : Machine F) (closed : ℕ) where
  -- The events of a run take the numbers after `n`, one each.
  abbrev pub IsNumbered : ℕ → List (RiskEvent F) → Type 0
  IsNumbered n [] = Unit
  IsNumbered n (e ∷ es) =
      (e.event_id ≡ m.digest (event (n + 1) closed e.symbol e.event_type)) × IsNumbered (n + 1) es

  -- Events with the state before and after them.
  abbrev pub Numbers : RiskState F → List (RiskEvent F) → RiskState F → Type 0
  Numbers s es t = IsNumbered s.sequence es × (t.sequence ≡ s.sequence + length es)

  IsNumbered-append :
      (n : ℕ) (xs ys : List (RiskEvent F))
      → IsNumbered n xs
      → IsNumbered (n + length xs) ys
      → IsNumbered n (xs ++ ys)
  IsNumbered-append n [] ys h k = subst (λ i. IsNumbered i ys) (omega arith) k
  IsNumbered-append n (a ∷ xs) ys h k =
      (h.0, IsNumbered-append (n + 1) xs ys h.1 (subst (λ i. IsNumbered i ys) (omega arith) k))

  Numbers-append :
      (s t u : RiskState F) (xs ys : List (RiskEvent F))
      → Numbers s xs t
      → Numbers t ys u
      → Numbers s (xs ++ ys) u
  Numbers-append s t u xs ys h k = (
    IsNumbered-append s.sequence xs ys h.0 (subst (λ i. IsNumbered i ys) h.1 k.0),
    omega (arith, length-append xs ys),
  )

  fire_if_hit-Numbers :
      (symbol : ℕ) (p : RiskPosition F) (bar : BarRow F) (hit : Option (Hit F)) (s : RiskState F)
      {events : List (RiskEvent F)} {t : RiskState F}
      → fire_if_hit m closed symbol p bar hit s ≡ (ok events, t)
      → Numbers s events t
  unfolding fire_if_hit fire_symbol
  fire_if_hit-Numbers symbol p bar none s h =
      rw (← ok-injective (ap (λ r. r.0) h), ← ap (λ r. r.1) h) (tt, omega arith)
  fire_if_hit-Numbers symbol p bar (some hit) s h =
      let (fraction, e, h') = lift-eq-ok (fraction_of f.unit hit.rule) _ _ h in
      rw (← ok-injective (ap (λ r. r.0) h'), ← ap (λ r. r.1) h') ((refl, tt), omega arith)

module _ {F : Type 0} ⦃f : Float F⦄ (m : Machine F) (snap : Snapshot F) where
  check_symbol-Numbers :
      (symbol : ℕ) (p : RiskPosition F) (s : RiskState F) {events : List (RiskEvent F)}
      {t : RiskState F}
      → check_symbol m snap symbol p s ≡ (ok events, t)
      → Numbers m snap.closed_at s events t
  unfolding check_symbol
  check_symbol-Numbers symbol p s h =
      elim (if-cases (exhausted m.config.max_triggers_per_symbol p.trigger_count) _ _ s h) [
        | inl (spent, e) ↦
            rw (← ok-injective (ap (λ r. r.0) e), ← ap (λ r. r.1) e) (tt, omega arith)
        | inr (left, e) ↦
            let (bar, e1, h1) = or_raise-eq-ok (lookup symbol snap.bars) _ s _ e in
            let (hit, e2, h2) = lift-eq-ok (symbol_trigger m.config p bar) s _ h1 in
            fire_if_hit-Numbers m snap.closed_at symbol p bar hit s h2
      ]

  evaluate_symbol-Numbers :
      (symbol : ℕ) (s : RiskState F) {events : List (RiskEvent F)} {t : RiskState F}
      → evaluate_symbol m snap symbol s ≡ (ok events, t)
      → Numbers m snap.closed_at s events t
  unfolding evaluate_symbol
  evaluate_symbol-Numbers symbol s {events} {t} h = elim (Bool-cases (contains symbol s.pending)) [
    | inl queued ↦
        let none_fired : [] ≡ events = ground arith in
        let same : s ≡ t = ground arith in rw (← none_fired, ← same) (tt, omega arith)
    | inr free ↦ elim (Option-cases (lookup symbol s.positions)) [
      | inl missing ↦ absurd (ground arith)
      | inr (p, at) ↦ check_symbol-Numbers symbol p s {events = events} {t = t} (ground arith)
    ]
  ]

  evaluate_symbols-Numbers :
      (d : Dict (PositionRow F)) (s : RiskState F) {events : List (RiskEvent F)} {t : RiskState F}
      → evaluate_symbols m snap d s ≡ (ok events, t)
      → Numbers m snap.closed_at s events t
  unfolding evaluate_symbols
  evaluate_symbols-Numbers [] s h =
      rw (← ok-injective (ap (λ r. r.0) h), ← ap (λ r. r.1) h) (tt, omega arith)
  evaluate_symbols-Numbers (e ∷ d) s h =
      let (first, u, e1, h1) = continue-eq-ok (evaluate_symbol m snap e.0 s) _ h in
      let (later, v, e2, h2) = continue-eq-ok (evaluate_symbols m snap d u) _ h1 in
      rw (← ok-injective (ap (λ r. r.0) h2), ← ap (λ r. r.1) h2)
        (Numbers-append m snap.closed_at s u v first later (evaluate_symbol-Numbers e.0 s e1)
          (evaluate_symbols-Numbers d u e2))

  sequence-close_all :
      (id : ℕ) (hit : PortfolioHit F) (d : Dict (PositionRow F)) (s : RiskState F)
      → (close_all m snap.closed_at id hit d s).sequence ≡ s.sequence
  unfolding close_all
  sequence-close_all id hit [] s = refl
  sequence-close_all id hit (e ∷ d) s =
      sequence-close_all id hit d (close_one m snap.closed_at id hit e.0 e.1 s)

  fire_portfolio-Numbers :
      (equity : F) (rows : Dict (PositionRow F)) (hit : PortfolioHit F) (s : RiskState F)
      {events : List (RiskEvent F)} {t : RiskState F}
      → fire_portfolio m snap.closed_at equity rows hit s ≡ (ok events, t)
      → Numbers m snap.closed_at s events t
  unfolding fire_portfolio
  fire_portfolio-Numbers equity rows hit s h =
      let (within, h1) =
        raise_if-eq-ok (ltb m.max_pending_risk_intents (union_size s.pending rows)) _ s _ h in
      rw (← ok-injective (ap (λ r. r.0) h1), ← ap (λ r. r.1) h1)
        ((refl, tt), sequence-close_all _ hit (sort rows) (record s { sequence = s.sequence + 1 }))

  fire_events-Numbers :
      (equity : F) (rows : Dict (PositionRow F)) (hit : Option (PortfolioHit F)) (s : RiskState F)
      {events : List (RiskEvent F)} {t : RiskState F}
      → fire_events m snap equity rows hit s ≡ (ok events, t)
      → Numbers m snap.closed_at s events t
  unfolding fire_events
  fire_events-Numbers equity [] hit s h = evaluate_symbols-Numbers [] s h
  fire_events-Numbers equity (e ∷ rows) none s h = evaluate_symbols-Numbers (sort (e ∷ rows)) s h
  fire_events-Numbers equity (e ∷ rows) (some hit) s h =
      fire_portfolio-Numbers equity (e ∷ rows) hit s h

module _ {F : Type 0} ⦃f : Float F⦄ (m : Machine F) (bars : Frame (BarRow F))
    (positions : Frame (PositionInput F)) (equity : F) (source : TriggerPrice)
    (s : RiskState F) where
  -- The events of a call of `evaluate` that returns are numbered on from the machine's sequence
  -- without a gap, each id is the digest of its number, time, symbol and type, and the sequence
  -- moves by the number of events.
  pub evaluate_numbers_events :
      {r : RiskEvaluation F} {t : RiskState F}
      → evaluate m bars positions equity source s ≡ (ok r, t)
      → (closed : ℕ) × (t.last_close_time ≡ some closed)
        × IsNumbered m closed s.sequence r.events
        × (t.sequence ≡ s.sequence + length r.events)
  unfolding advance
  evaluate_numbers_events h =
      let run = evaluate-Evaluated m bars positions equity source s h in
      let n = fire_events-Numbers m run.snap equity run.rows _ run.u run.fired in
      let start = ap (λ x. x.sequence) run.admitted.after in
      rw run.settled.events_kept (
        run.snap.closed_at,
        ap (λ x. x.last_close_time) run.settled.after,
        subst (λ i. IsNumbered m run.snap.closed_at i run.events) start n.0,
        ap (λ x. x.sequence) run.settled.after ∙ n.1 ∙ ap (λ (i : ℕ). i + length run.events) start,
      )
