-- ===== src/Risk/Phase.antt =====
-- What the event phase of `evaluate` keeps, one lemma for each part of the state.
use bfbt.Base.{
  ℕ, ◌+◌, ◌≤◌, ◌<◌, ◌≡◌, refl, true, false, Option, none, some, ◌⊎◌, inl, inr, arith, subst, sym,
  ◌∙◌,
}
use bfbt.Config.ExitRules.{RiskConfig}
use bfbt.Dict.{Dict, lookup, contains, insert, IsUnique}
use bfbt.Dict.Laws.{lookup-insert, lookup-insert_cases}
use bfbt.Dict.Unique.{IsUnique-insert}
use bfbt.Risk.State.{RiskPosition, Cooldown, Pending, RiskState, Machine, PositionRow}
use bfbt.Risk.Book.{queue, cooldown_from}
use bfbt.Risk.Evaluate.{exhausted}
use bfbt.Risk.Steps.{FireStep, Fires, here, next, number, fire, close}

module _ {F : Type 0} where
  pub lookup-queue :
      (k : ℕ) (item : Pending F) (d : Dict (Pending F)) {x : Pending F}
      → lookup k (queue item d) ≡ some x
      → (lookup k d ≡ some x) ⊎ ((x ≡ item) × (k ≡ item.symbol))
  unfolding queue
  lookup-queue k item d h = ground (arith, lookup-insert k item.symbol item d)

  pub IsUnique-queue :
      (item : Pending F) (d : Dict (Pending F)) → IsUnique d → IsUnique (queue item d)
  unfolding queue
  IsUnique-queue item d u = ground (arith, IsUnique-insert item.symbol item d u)

-- `max_triggers_per_symbol` bounds a count, where it is set.
abbrev pub Within : Option ℕ → ℕ → Type 0
Within none count = Unit
Within (some maximum) count = count ≤ maximum

abbrev pub WithinTriggers : {F : Type 0} → Machine F → ℕ → Type 0
WithinTriggers m count = Within m.config.max_triggers_per_symbol count

pub Within-suc :
    (maximum : Option ℕ) (count : ℕ) → exhausted maximum count ≡ false → Within maximum (count + 1)
unfolding exhausted
Within-suc none count h = tt
Within-suc (some n) count h = ground arith

cooldown_from-ordered :
    {F : Type 0} (c : RiskConfig F) (count : ℕ)
    → ((cooldown_from c count).trigger_index < (cooldown_from c count).release_index)
      × ((cooldown_from c count).trigger_index ≤ count + 1)
unfolding cooldown_from
cooldown_from-ordered c count = ground arith

module _ {F : Type 0} (m : Machine F) (closed : ℕ) (rows : Dict (PositionRow F)) where
  -- An invariant of the steps is one of the phase.
  pub Fires-keeps {ℓ} :
      (P : RiskState F → Type ℓ)
      → ((s t : RiskState F) → FireStep m closed rows s t → P s → P t)
      → {s t : RiskState F} → Fires m closed rows s t
      → P s
      → P t
  Fires-keeps P step {s} (here e) h = subst P (sym e) h
  Fires-keeps P step (next k st) h = step _ _ st (Fires-keeps P step k h)

  -- The counters and clocks that only the end of `evaluate` writes.
  pub record SameClock (s t : RiskState F) : Type 0 where
    pub count : t.evaluation_count ≡ s.evaluation_count
    pub peak : t.portfolio_peak_equity ≡ s.portfolio_peak_equity
    pub opened : t.last_open_time ≡ s.last_open_time
    pub closed_at : t.last_close_time ≡ s.last_close_time

  step-SameClock : (s t : RiskState F) → FireStep m closed rows s t → SameClock s t
  step-SameClock s t (number e) =
      rw e (record { count = refl; peak = refl; opened = refl; closed_at = refl })
  step-SameClock s t (fire symbol p item held at free left same time e) =
      rw e (record { count = refl; peak = refl; opened = refl; closed_at = refl })
  step-SameClock s t (close symbol item held same time e) =
      rw e (record { count = refl; peak = refl; opened = refl; closed_at = refl })

  -- What holds of the state throughout the phase; `start` are the cooldowns at its beginning.
  pub record InPhase (start : Dict Cooldown) (s : RiskState F) : Type 0 where
    pub positions_unique : IsUnique s.positions
    pub cooldowns_unique : IsUnique s.cooldowns
    pub pending_unique : IsUnique s.pending
    pub keyed :
        (k : ℕ) (item : Pending F)
        → lookup k s.pending ≡ some item
        → (item.symbol ≡ k) × (item.fill_time ≡ closed)
    pub held : (k : ℕ) → contains k s.positions ≡ contains k rows
    pub cooled :
        (k : ℕ)
        → contains k s.cooldowns ≡ true
        → (contains k rows ≡ true) ⊎ (contains k start ≡ true)
    pub counts :
        (k : ℕ) (p : RiskPosition F)
        → lookup k s.positions ≡ some p
        → WithinTriggers m p.trigger_count
    pub ordered :
        (k : ℕ) (c : Cooldown)
        → lookup k s.cooldowns ≡ some c
        → (c.trigger_index < c.release_index) × (c.trigger_index ≤ s.evaluation_count + 1)

  module _ (start : Dict Cooldown) where
    number-InPhase :
        (s : RiskState F) → InPhase start s → InPhase start (record s { sequence = s.sequence + 1 })
    number-InPhase s h = record {
      positions_unique = h.positions_unique;
      cooldowns_unique = h.cooldowns_unique;
      pending_unique = h.pending_unique;
      keyed = h.keyed;
      held = h.held;
      cooled = h.cooled;
      counts = h.counts;
      ordered = h.ordered;
    }

    close-InPhase :
        (s : RiskState F) (symbol : ℕ) (item : Pending F)
        → contains symbol rows ≡ true
        → item.symbol ≡ symbol
        → item.fill_time ≡ closed
        → InPhase start s
        → InPhase start (record s {
          pending = queue item s.pending;
          cooldowns = insert symbol (cooldown_from m.config s.evaluation_count) s.cooldowns;
        })
    close-InPhase s symbol item held same time h =
        let c = cooldown_from m.config s.evaluation_count in
        record {
          positions_unique = h.positions_unique;
          cooldowns_unique = IsUnique-insert symbol c s.cooldowns h.cooldowns_unique;
          pending_unique = IsUnique-queue item s.pending h.pending_unique;
          keyed = λ k x e. ground (arith, lookup-queue k item s.pending e, h.keyed k x);
          held = h.held;
          cooled = λ k e. ground (arith, lookup-insert k symbol c s.cooldowns, h.cooled k);
          counts = h.counts;
          ordered = λ k x e. ground (
            arith,
            lookup-insert k symbol c s.cooldowns,
            h.ordered k x,
            cooldown_from-ordered m.config s.evaluation_count,
          );
        }

    fire-InPhase :
        (s : RiskState F) (symbol : ℕ) (p : RiskPosition F)
        → lookup symbol s.positions ≡ some p
        → exhausted m.config.max_triggers_per_symbol p.trigger_count ≡ false
        → InPhase start s
        → InPhase start (record s {
          positions = insert symbol (record p { trigger_count = p.trigger_count + 1 }) s.positions;
        })
    fire-InPhase s symbol p at left h =
        let p' : RiskPosition F = record p { trigger_count = p.trigger_count + 1 } in
        record {
          positions_unique = IsUnique-insert symbol p' s.positions h.positions_unique;
          cooldowns_unique = h.cooldowns_unique;
          pending_unique = h.pending_unique;
          keyed = h.keyed;
          held = λ k. ground (arith, lookup-insert k symbol p' s.positions, h.held k);
          cooled = h.cooled;
          counts = λ k x e. elim (lookup-insert_cases k symbol p' s.positions e) [
            | inl new ↦ rw new.1 (Within-suc m.config.max_triggers_per_symbol p.trigger_count left)
            | inr old ↦ h.counts k x old
          ];
          ordered = h.ordered;
        }

    step-InPhase :
        (s t : RiskState F) → FireStep m closed rows s t → InPhase start s → InPhase start t
    step-InPhase s t (number e) h = rw e (number-InPhase s h)
    step-InPhase s t (close symbol item held same time e) h =
        rw e (close-InPhase s symbol item held same time h)
    step-InPhase s t (fire symbol p item held at free left same time e) h = rw e (
        close-InPhase _ symbol item held same time
          (fire-InPhase _ symbol p at left (number-InPhase s h)))

    pub Fires-InPhase :
        {s t : RiskState F} → Fires m closed rows s t → InPhase start s → InPhase start t
    Fires-InPhase k h = Fires-keeps (InPhase start) step-InPhase k h

  pub Fires-SameClock : {s t : RiskState F} → Fires m closed rows s t → SameClock s t
  Fires-SameClock {s} k =
      Fires-keeps (SameClock s)
        (λ a b st h.
          let n = step-SameClock a b st in
          record {
            count = n.count ∙ h.count;
            peak = n.peak ∙ h.peak;
            opened = n.opened ∙ h.opened;
            closed_at = n.closed_at ∙ h.closed_at;
          })
        k (record { count = refl; peak = refl; opened = refl; closed_at = refl })
