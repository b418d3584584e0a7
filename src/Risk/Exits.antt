-- ===== src/Risk/Exits.antt =====
-- The portfolio exit closes every held symbol.
use bfbt.Base.{
  ℕ, ◌+◌, ◌≡◌, refl, sym, ap, ◌∙◌, subst, false, Option, none, some, List, [], ◌∷◌, arith, ◌==◌,
  ltb, if◌then◌else◌,
}
use bfbt.Config.ExitRules.{TriggerPrice, ExitAction}
use bfbt.Contracts.{EventPriority, to_int}
use bfbt.Dict.{Dict, lookup, contains, sort, union_size, IsUnique}
use bfbt.Dict.Laws.{lookup-insert, lookup-sort}
use bfbt.Dict.Unique.{IsUnique-sort}
use bfbt.Exec.{ok}
use bfbt.Exec.Laws.{ok-injective, raise_if-eq-ok}
use bfbt.Float.{Float}
use bfbt.Risk.State.{
  PositionRow, RiskState, Machine, Frame, BarRow, PositionInput, Snapshot, RiskEvent, event,
  Pending, Cooldown,
}
use bfbt.Risk.Input.{position_rows}
use bfbt.Risk.Trigger.{PortfolioHit, portfolio_trigger}
use bfbt.Risk.Book.{queue, cooldown_from}
use bfbt.Risk.Evaluate.{
  RiskEvaluation, evaluate, advance, close_all, close_one, portfolio_intent, fire_portfolio,
  fire_events,
}
use bfbt.Risk.Runs.{evaluate-Evaluated}
use bfbt.Risk.Sync.{position_rows-IsUnique}
use bfbt.Risk.Invariant.{IsValid}
use bfbt.Risk.Preserve.{Admitted-none_pending}

module _ {F : Type 0} ⦃f : Float F⦄ (m : Machine F) (closed event_id : ℕ)
    (hit : PortfolioHit F) where
  -- An intent is queued for each symbol, where none was pending.
  abbrev pub closed_intent : ℕ → Option (PositionRow F) → Option (Pending F) → Option (Pending F)
  closed_intent k none old = old
  closed_intent k (some row) old = some (portfolio_intent closed event_id hit k row)

  lookup-queue_new :
      (k j : ℕ) (row : PositionRow F) (d : Dict (Pending F))
      → contains j d ≡ false
      → lookup k (queue (portfolio_intent closed event_id hit j row) d)
        ≡ (if k == j then some (portfolio_intent closed event_id hit j row) else lookup k d)
  unfolding queue portfolio_intent
  lookup-queue_new k j row d n =
      ground (arith, lookup-insert k j (portfolio_intent closed event_id hit j row) d)

  -- No symbol of `d` has an intent.
  abbrev AllFree : Dict (PositionRow F) → Dict (Pending F) → Type 0
  AllFree [] p = Unit
  AllFree (e ∷ d) p = (contains e.0 p ≡ false) × AllFree d p

  AllFree-queue :
      (j : ℕ) (row : PositionRow F) (d : Dict (PositionRow F)) (p : Dict (Pending F))
      → contains j p ≡ false
      → contains j d ≡ false
      → AllFree d p
      → AllFree d (queue (portfolio_intent closed event_id hit j row) p)
  unfolding lookup
  AllFree-queue j row [] p n u h = tt
  AllFree-queue j row (e ∷ d) p n u h =
      ground (arith, AllFree-queue j row d p, lookup-queue_new e.0 j row p n)

  lookup-close_all :
      (k : ℕ) (d : Dict (PositionRow F)) (s : RiskState F)
      → IsUnique d
      → AllFree d s.pending
      → lookup k (close_all m closed event_id hit d s).pending
        ≡ closed_intent k (lookup k d) (lookup k s.pending)
  unfolding close_all lookup
  lookup-close_all k [] s u h = refl
  lookup-close_all k (e ∷ d) s u h = ground (
    arith,
    lookup-close_all k d (close_one m closed event_id hit e.0 e.1 s) u.1
        (AllFree-queue e.0 e.1 d s.pending h.0 u.0 h.1),
    lookup-queue_new k e.0 e.1 s.pending h.0,
    u.0,
  )

  -- The cooldown of each symbol starts, and those of others stay.
  abbrev pub closed_cooldown : ℕ → Option (PositionRow F) → Option Cooldown → Option Cooldown
  closed_cooldown count none old = old
  closed_cooldown count (some row) old = some (cooldown_from m.config count)

  cooldowns-close_all :
      (k : ℕ) (d : Dict (PositionRow F)) (s : RiskState F)
      → lookup k (close_all m closed event_id hit d s).cooldowns
        ≡ closed_cooldown s.evaluation_count (lookup k d) (lookup k s.cooldowns)
  unfolding close_all lookup
  cooldowns-close_all k [] s = refl
  cooldowns-close_all k (e ∷ d) s = ground (
    arith,
    cooldowns-close_all k d (close_one m closed event_id hit e.0 e.1 s),
    lookup-insert k e.0 (cooldown_from m.config s.evaluation_count) s.cooldowns,
  )

module _ {F : Type 0} ⦃f : Float F⦄ (m : Machine F) (snap : Snapshot F) (equity : F)
    (hit : PortfolioHit F) where
  AllFree-empty :
      (id : ℕ) (d : Dict (PositionRow F)) (p : Dict (Pending F))
      → p ≡ []
      → AllFree m snap.closed_at id hit d p
  unfolding lookup
  AllFree-empty id [] p e = tt
  AllFree-empty id (x ∷ d) p e = (rw e refl, AllFree-empty id d p e)

  -- The identity of the portfolio event that the state would number next.
  abbrev pub next_portfolio_id : RiskState F → ℕ
  next_portfolio_id s = m.digest (event (s.sequence + 1) snap.closed_at none hit.event_type)

  fire_portfolio_exits :
      (rows : Dict (PositionRow F)) (u : RiskState F) {events : List (RiskEvent F)}
      {v : RiskState F} (k : ℕ) (row : PositionRow F)
      → IsUnique rows
      → u.pending ≡ []
      → lookup k rows ≡ some row
      → fire_portfolio m snap.closed_at equity rows hit u ≡ (ok events, v)
      → (lookup k v.pending
          ≡ some (portfolio_intent snap.closed_at (next_portfolio_id u) hit k row))
        × (lookup k v.cooldowns ≡ some (cooldown_from m.config u.evaluation_count))
  unfolding fire_portfolio
  fire_portfolio_exits rows u k row unique none_left at h =
      let (within, h1) =
        raise_if-eq-ok (ltb m.max_pending_risk_intents (union_size u.pending rows)) _ u _ h in
      let id = next_portfolio_id u in
      let u' : RiskState F = record u { sequence = u.sequence + 1 } in
      let found = lookup-sort k rows unique ∙ at in
      (
        sym (ap (λ r. lookup k r.1.pending) h1)
            ∙ lookup-close_all m snap.closed_at id hit k (sort rows) u' (IsUnique-sort rows unique)
                (AllFree-empty id (sort rows) u.pending none_left)
            ∙ ap (λ o. closed_intent m snap.closed_at id hit k o (lookup k u.pending)) found,
        sym (ap (λ r. lookup k r.1.cooldowns) h1)
            ∙ cooldowns-close_all m snap.closed_at id hit k (sort rows) u'
            ∙ ap
                (λ o.
                  closed_cooldown m snap.closed_at id hit u.evaluation_count o
                    (lookup k u.cooldowns))
                found,
      )

  fire_events_exits :
      (rows : Dict (PositionRow F)) (u : RiskState F) {events : List (RiskEvent F)}
      {v : RiskState F} (k : ℕ) (row : PositionRow F)
      → IsUnique rows
      → u.pending ≡ []
      → lookup k rows ≡ some row
      → fire_events m snap equity rows (some hit) u ≡ (ok events, v)
      → (lookup k v.pending
          ≡ some (portfolio_intent snap.closed_at (next_portfolio_id u) hit k row))
        × (lookup k v.cooldowns ≡ some (cooldown_from m.config u.evaluation_count))
  unfolding fire_events lookup
  fire_events_exits [] u k row unique none_left at h = cc
  fire_events_exits (e ∷ rows) u k row unique none_left at h =
      fire_portfolio_exits (e ∷ rows) u k row unique none_left at h

module _ {F : Type 0} ⦃f : Float F⦄ (m : Machine F) (bars : Frame (BarRow F))
    (positions : Frame (PositionInput F)) (equity : F) (source : TriggerPrice)
    (s : RiskState F) where
  -- Where the equity reaches a portfolio exit, a call of `evaluate` that returns from a
  -- well-formed state leaves, for every held symbol, an intent to close its whole position at the
  -- new close with the exit's reason and the portfolio's priority, and a fresh cooldown.
  pub evaluate_closes_all :
      {r : RiskEvaluation F} {t : RiskState F} {rows : Dict (PositionRow F)} {hit : PortfolioHit F}
      (k : ℕ) (row : PositionRow F)
      → IsValid m s
      → evaluate m bars positions equity source s ≡ (ok r, t)
      → position_rows positions ≡ ok rows
      → portfolio_trigger m s.portfolio_peak_equity equity ≡ some hit
      → lookup k rows ≡ some row
      → (item : Pending F) × (lookup k t.pending ≡ some item)
        × (item.symbol ≡ k)
        × (item.direction ≡ row.direction)
        × (item.action ≡ ExitAction.close_position)
        × (item.reduce_fraction ≡ f.unit)
        × (item.reason_code ≡ hit.reason)
        × (item.priority ≡ to_int EventPriority.portfolio_risk)
        × (t.last_close_time ≡ some item.fill_time)
        × (lookup k t.cooldowns ≡ some (cooldown_from m.config s.evaluation_count))
  unfolding advance portfolio_intent
  evaluate_closes_all {hit = hit} k row h e p trigger at =
      let run = evaluate-Evaluated m bars positions equity source s e in
      let entry = run.admitted.after in
      let leave = run.settled.after in
      let triggered =
        ap (λ x. portfolio_trigger m x.portfolio_peak_equity equity) entry ∙ trigger in
      let fired =
        subst (λ o. fire_events m run.snap equity run.rows o run.u ≡ (ok run.events, run.v))
          triggered run.fired in
      let found = ap (lookup k) (ok-injective (sym run.admitted.rows_read ∙ p)) ∙ at in
      let exits =
        fire_events_exits m run.snap equity hit run.rows run.u k row
          (position_rows-IsUnique positions run.admitted.rows_read)
          (ap (λ x. x.pending) entry
            ∙ Admitted-none_pending m bars positions equity source s h run.admitted)
          found fired in
      (
        portfolio_intent run.snap.closed_at (next_portfolio_id m run.snap equity hit run.u) hit k
            row,
        ap (λ x. lookup k x.pending) leave ∙ exits.0,
        refl,
        refl,
        refl,
        refl,
        refl,
        refl,
        ap (λ x. x.last_close_time) leave,
        ap (λ x. lookup k x.cooldowns) leave
            ∙ exits.1
            ∙ ap (λ x. some (cooldown_from m.config x.evaluation_count)) entry,
      )
