-- ===== src/Risk/Steps.antt =====
-- The event phase of `evaluate` as a step relation: every call of `fire_events` that returns is a
-- sequence of steps, so an invariant of the phase is an invariant of the steps.
use bfbt.Base.{
  ℕ, ◌+◌, ◌≡◌, refl, true, false, Option, none, some, List, [], ◌∷◌, arith, sym, subst, ap,
  Bool-cases, Option-cases, inl, inr, ltb,
}
use bfbt.Dict.{Dict, lookup, contains, insert, sort, union_size, IsUnique}
use bfbt.Dict.Laws.{lookup-sort}
use bfbt.Exec.{ok}
use bfbt.Exec.Laws.{continue-eq-ok, lift-eq-ok, raise_if-eq-ok, or_raise-eq-ok, if-cases}
use bfbt.Float.{Float}
use bfbt.Risk.State.{
  RiskPosition, Pending, RiskState, Machine, BarRow, PositionRow, Snapshot, RiskEvent, event,
}
use bfbt.Risk.Trigger.{Hit, PortfolioHit, symbol_trigger}
use bfbt.Risk.Book.{queue, cooldown_from}
use bfbt.Risk.Evaluate.{
  exhausted, fraction_of, symbol_intent, fire_if_hit, portfolio_intent, close_one, fire_symbol,
  check_symbol, evaluate_symbol, evaluate_symbols, close_all, fire_portfolio, fire_events,
}

module _ {F : Type 0} (m : Machine F) (closed : ℕ) (rows : Dict (PositionRow F)) where
  pub data FireStep (s t : RiskState F) : Type 0 where
    -- A portfolio event takes a number.
    number : t ≡ record s { sequence = s.sequence + 1 } → FireStep s t
    -- A held symbol without an intent fires.
    fire :
        (symbol : ℕ) (p : RiskPosition F) (item : Pending F)
        → contains symbol rows ≡ true
        → lookup symbol s.positions ≡ some p
        → contains symbol s.pending ≡ false
        → exhausted m.config.max_triggers_per_symbol p.trigger_count ≡ false
        → item.symbol ≡ symbol
        → item.fill_time ≡ closed
        → t ≡ record s {
          sequence = s.sequence + 1;
          pending = queue item s.pending;
          positions = insert symbol (record p { trigger_count = p.trigger_count + 1 }) s.positions;
          cooldowns = insert symbol (cooldown_from m.config s.evaluation_count) s.cooldowns;
        }
        → FireStep s t
    -- A held symbol is closed with the portfolio.
    close :
        (symbol : ℕ) (item : Pending F)
        → contains symbol rows ≡ true
        → item.symbol ≡ symbol
        → item.fill_time ≡ closed
        → t ≡ record s {
          pending = queue item s.pending;
          cooldowns = insert symbol (cooldown_from m.config s.evaluation_count) s.cooldowns;
        }
        → FireStep s t

  pub data Fires (s : RiskState F) : RiskState F → Type 0 where
    here : {t : RiskState F} → t ≡ s → Fires s t
    next : {t u : RiskState F} → Fires s t → FireStep t u → Fires s u

  pub Fires-trans : {s t u : RiskState F} → Fires s t → Fires t u → Fires s u
  Fires-trans {s} h (here e) = subst (λ x. Fires s x) (sym e) h
  Fires-trans h (next k st) = next (Fires-trans h k) st

  pub Fires-eq : {s t u : RiskState F} → Fires s t → t ≡ u → Fires s u
  Fires-eq {s} h e = subst (λ x. Fires s x) e h

module _ {F : Type 0} ⦃f : Float F⦄ (m : Machine F) (snap : Snapshot F)
    (rows : Dict (PositionRow F)) where
  fire_symbol-Fires :
      (symbol : ℕ) (p : RiskPosition F) (bar : BarRow F) (hit : Hit F) (s : RiskState F)
      {events : List (RiskEvent F)} {t : RiskState F}
      → contains symbol rows ≡ true
      → lookup symbol s.positions ≡ some p
      → contains symbol s.pending ≡ false
      → exhausted m.config.max_triggers_per_symbol p.trigger_count ≡ false
      → fire_symbol m snap.closed_at symbol p bar hit s ≡ (ok events, t)
      → Fires m snap.closed_at rows s t
  unfolding fire_symbol symbol_intent
  fire_symbol-Fires symbol p bar hit s held at free left h =
      let (fraction, e, h') = lift-eq-ok (fraction_of f.unit hit.rule) _ _ h in
      let id = m.digest (event (s.sequence + 1) snap.closed_at (some symbol) hit.event_type) in
      next (here refl) (
        fire symbol p (symbol_intent m snap.closed_at symbol p bar hit id fraction) held at free
          left refl refl (ground arith))

  fire_if_hit-Fires :
      (symbol : ℕ) (p : RiskPosition F) (bar : BarRow F) (hit : Option (Hit F)) (s : RiskState F)
      {events : List (RiskEvent F)} {t : RiskState F}
      → contains symbol rows ≡ true
      → lookup symbol s.positions ≡ some p
      → contains symbol s.pending ≡ false
      → exhausted m.config.max_triggers_per_symbol p.trigger_count ≡ false
      → fire_if_hit m snap.closed_at symbol p bar hit s ≡ (ok events, t)
      → Fires m snap.closed_at rows s t
  unfolding fire_if_hit
  fire_if_hit-Fires symbol p bar none s held at free left h = here (ground arith)
  fire_if_hit-Fires symbol p bar (some hit) s held at free left h =
      fire_symbol-Fires symbol p bar hit s held at free left h

  check_symbol-Fires :
      (symbol : ℕ) (p : RiskPosition F) (s : RiskState F) {events : List (RiskEvent F)}
      {t : RiskState F}
      → contains symbol rows ≡ true
      → lookup symbol s.positions ≡ some p
      → contains symbol s.pending ≡ false
      → check_symbol m snap symbol p s ≡ (ok events, t)
      → Fires m snap.closed_at rows s t
  unfolding check_symbol
  check_symbol-Fires symbol p s held at free h =
      elim (if-cases (exhausted m.config.max_triggers_per_symbol p.trigger_count) _ _ s h) [
        | inl (spent, e) ↦ here (ground arith)
        | inr (left, e) ↦
            let (bar, e1, h1) = or_raise-eq-ok (lookup symbol snap.bars) _ s _ e in
            let (hit, e2, h2) = lift-eq-ok (symbol_trigger m.config p bar) s _ h1 in
            fire_if_hit-Fires symbol p bar hit s held at free left h2
      ]

  evaluate_symbol-Fires :
      (symbol : ℕ) (s : RiskState F) {events : List (RiskEvent F)} {t : RiskState F}
      → contains symbol rows ≡ true
      → evaluate_symbol m snap symbol s ≡ (ok events, t)
      → Fires m snap.closed_at rows s t
  unfolding evaluate_symbol
  evaluate_symbol-Fires symbol s {events} {t} held h =
      elim (Bool-cases (contains symbol s.pending)) [
        | inl queued ↦ here (ground arith)
        | inr free ↦ elim (Option-cases (lookup symbol s.positions)) [
          | inl missing ↦ absurd (ground arith)
          | inr (p, at) ↦
              check_symbol-Fires symbol p s {events = events} {t = t} held at free (ground arith)
        ]
      ]

  -- The keys of `d` are held.
  abbrev AllHeld : Dict (PositionRow F) → Type 0
  AllHeld [] = Unit
  AllHeld (e ∷ d) = (contains e.0 rows ≡ true) × AllHeld d

  evaluate_symbols-Fires :
      (d : Dict (PositionRow F)) (s : RiskState F) {events : List (RiskEvent F)} {t : RiskState F}
      → AllHeld d
      → evaluate_symbols m snap d s ≡ (ok events, t)
      → Fires m snap.closed_at rows s t
  unfolding evaluate_symbols
  evaluate_symbols-Fires [] s held h = here (ground arith)
  evaluate_symbols-Fires (e ∷ d) s held h =
      let (first, u, e1, h1) = continue-eq-ok (evaluate_symbol m snap e.0 s) _ h in
      let (later, v, e2, h2) = continue-eq-ok (evaluate_symbols m snap d u) _ h1 in
      Fires-eq m snap.closed_at rows
        (Fires-trans m snap.closed_at rows (evaluate_symbol-Fires e.0 s held.0 e1)
          (evaluate_symbols-Fires d u held.1 e2))
        (ap (λ r. r.1) h2)

  close_all-Fires :
      (event_id : ℕ) (hit : PortfolioHit F) (d : Dict (PositionRow F)) (s : RiskState F)
      → AllHeld d
      → Fires m snap.closed_at rows s (close_all m snap.closed_at event_id hit d s)
  unfolding close_all portfolio_intent
  close_all-Fires event_id hit [] s held = here refl
  close_all-Fires event_id hit (e ∷ d) s held =
      Fires-trans m snap.closed_at rows
        (next (here refl)
          (close e.0 (portfolio_intent snap.closed_at event_id hit e.0 e.1) held.0 refl refl refl))
        (close_all-Fires event_id hit d (close_one m snap.closed_at event_id hit e.0 e.1 s) held.1)

  fire_portfolio-Fires :
      (equity : F) (hit : PortfolioHit F) (s : RiskState F) {events : List (RiskEvent F)}
      {t : RiskState F}
      → AllHeld (sort rows)
      → fire_portfolio m snap.closed_at equity rows hit s ≡ (ok events, t)
      → Fires m snap.closed_at rows s t
  unfolding fire_portfolio
  fire_portfolio-Fires equity hit s held h =
      let (within, h1) =
        raise_if-eq-ok (ltb m.max_pending_risk_intents (union_size s.pending rows)) _ s _ h in
      let id = m.digest (event (s.sequence + 1) snap.closed_at none hit.event_type) in
      Fires-eq m snap.closed_at rows
        (Fires-trans m snap.closed_at rows (next (here refl) (number refl))
          (close_all-Fires id hit (sort rows) (record s { sequence = s.sequence + 1 }) held))
        (ap (λ r. r.1) h1)

  AllHeld-of :
      (d : Dict (PositionRow F))
      → ((k : ℕ) → contains k d ≡ true → contains k rows ≡ true)
      → AllHeld d
  unfolding lookup
  AllHeld-of [] h = tt
  AllHeld-of (e ∷ d) h = (h e.0 (ground arith), AllHeld-of d (λ k c. h k (ground arith)))

  AllHeld-sort : IsUnique rows → AllHeld (sort rows)
  AllHeld-sort u = AllHeld-of (sort rows) (λ k c. rw (← lookup-sort k rows u) c)

module _ {F : Type 0} ⦃f : Float F⦄ (m : Machine F) (snap : Snapshot F) (equity : F) where
  -- The event phase is a sequence of steps.
  pub fire_events-Fires :
      (rows : Dict (PositionRow F)) (hit : Option (PortfolioHit F)) (s : RiskState F)
      {events : List (RiskEvent F)} {t : RiskState F}
      → IsUnique rows
      → fire_events m snap equity rows hit s ≡ (ok events, t)
      → Fires m snap.closed_at rows s t
  unfolding fire_events
  fire_events-Fires [] hit s unique h = evaluate_symbols-Fires m snap [] [] s tt h
  fire_events-Fires (e ∷ rows) none s unique h =
      evaluate_symbols-Fires m snap (e ∷ rows) (sort (e ∷ rows)) s
        (AllHeld-sort m snap (e ∷ rows) unique) h
  fire_events-Fires (e ∷ rows) (some hit) s unique h =
      fire_portfolio-Fires m snap (e ∷ rows) equity hit s (AllHeld-sort m snap (e ∷ rows) unique) h
