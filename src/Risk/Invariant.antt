-- ===== src/Risk/Invariant.antt =====
-- The well-formed states of the risk machine, and that a call of `evaluate` that returns keeps them.
use bfbt.Base.{
  ℕ, ◌≤◌, ◌<◌, ◌≡◌, refl, sym, ◌∙◌, true, false, not, Option, none, some, [], ◌∷◌, inl, inr, arith,
  ==_self, leb, Option-cases, length,
}
use native.Mathlib.Nat.{le_trans}
use bfbt.Config.ExitRules.{ReentryPolicy}
use bfbt.Dict.{Dict, lookup, all_items, IsUnique, union_size}
use bfbt.Dict.Laws.{lookup-filter_items-some}
use bfbt.Dict.Unique.{IsUnique-filter_items}
use bfbt.Dict.Count.{union_size-le}
use bfbt.Exec.{ok}
use bfbt.Float.{Float}
use bfbt.Risk.State.{RiskPosition, Cooldown, Pending, RiskState, Machine, PositionRow, Snapshot}
use bfbt.Risk.Input.{is_gap}
use bfbt.Risk.Book.{expire_cooldowns, synced, sync_positions, widen, update_extremes}
use bfbt.Risk.Evaluate.{advance}
use bfbt.Risk.Phase.{InPhase, Within, WithinTriggers}
use bfbt.Risk.Sync.{
  IsUnique-sync_positions, lookup-sync_positions, lookup-update_extremes, IsUnique-update_extremes,
  contains-update_extremes, widen-trigger_count,
}

Within-zero : (maximum : Option ℕ) → Within maximum 0
Within-zero none = tt
Within-zero (some n) = omega arith

module _ {F : Type 0} where
  -- The intents of a state: kept under their own symbol, and all due at the last close.
  pub record HasIntents (s : RiskState F) : Type 0 where
    pub unique : IsUnique s.pending
    pub keyed :
        (k : ℕ) (item : Pending F)
        → lookup k s.pending ≡ some item
        → (item.symbol ≡ k) × (s.last_close_time ≡ some item.fill_time)

  pub record IsValid (m : Machine F) (s : RiskState F) : Type 0 where
    pub positions_unique : IsUnique s.positions
    pub cooldowns_unique : IsUnique s.cooldowns
    pub intents : HasIntents s
    pub rows_within : union_size s.positions s.cooldowns ≤ m.max_risk_state_rows
    pub pending_within : length s.pending ≤ m.max_pending_risk_intents
    pub counts :
        (k : ℕ) (p : RiskPosition F)
        → lookup k s.positions ≡ some p
        → WithinTriggers m p.trigger_count
    pub ordered :
        (k : ℕ) (c : Cooldown)
        → lookup k s.cooldowns ≡ some c
        → (c.trigger_index < c.release_index) × (c.trigger_index ≤ s.evaluation_count)

  synced-Within :
      (maximum : Option ℕ) (row : PositionRow F) (p : Option (RiskPosition F))
      → ((q : RiskPosition F) → p ≡ some q → Within maximum q.trigger_count)
      → Within maximum (synced row p).trigger_count
  unfolding synced
  synced-Within maximum row none h = Within-zero maximum
  synced-Within maximum row (some p) h = ground (arith, h p refl, Within-zero maximum)

  -- Expiry leaves a part of the cooldowns.
  pub IsUnique-expire_cooldowns :
      (policy : ReentryPolicy) (count : ℕ) (rows : Dict (PositionRow F)) (d : Dict Cooldown)
      → IsUnique d
      → IsUnique (expire_cooldowns policy count rows d)
  unfolding expire_cooldowns
  IsUnique-expire_cooldowns ReentryPolicy.next_scheduled_rebalance count rows d u = u
  IsUnique-expire_cooldowns ReentryPolicy.after_cooldown count rows d u =
      IsUnique-filter_items _ d u

  pub lookup-expire_cooldowns :
      (policy : ReentryPolicy) (count : ℕ) (rows : Dict (PositionRow F)) (d : Dict Cooldown) (k : ℕ)
      {c : Cooldown}
      → IsUnique d
      → lookup k (expire_cooldowns policy count rows d) ≡ some c
      → lookup k d ≡ some c
  unfolding expire_cooldowns
  lookup-expire_cooldowns ReentryPolicy.next_scheduled_rebalance count rows d k u h = h
  lookup-expire_cooldowns ReentryPolicy.after_cooldown count rows d k u h =
      lookup-filter_items-some _ k d u h

  -- With every intent due at the last close, none is left when the next bar opens there.
  pub none_pending :
      (d : Dict (Pending F)) (last : Option ℕ) (opened : ℕ)
      → ((k : ℕ) (item : Pending F) → lookup k d ≡ some item → last ≡ some item.fill_time)
      → is_gap last opened ≡ false
      → all_items (λ _ item. not (leb item.fill_time opened)) d ≡ true
      → d ≡ []
  unfolding lookup all_items is_gap
  none_pending [] last opened h g a = refl
  none_pending (e ∷ d) last opened h g a = absurd (ground (arith, h e.0 e.1, ==_self e.0))

  -- The state that `admit` leaves.
  abbrev pub entered : Machine F → Dict (PositionRow F) → RiskState F → RiskState F
  entered m rows s = record s {
    cooldowns = expire_cooldowns m.config.reentry_policy s.evaluation_count rows s.cooldowns;
    positions = sync_positions rows s.positions;
  }

  synced-counts :
      (m : Machine F) (rows : Dict (PositionRow F)) (s : RiskState F)
      → IsValid m s
      → IsUnique rows
      → (k : ℕ) (p : RiskPosition F) → lookup k (sync_positions rows s.positions) ≡ some p
      → WithinTriggers m p.trigger_count
  synced-counts m rows s h u k p e =
      let found = sym (lookup-sync_positions k rows s.positions u h.positions_unique) ∙ e in
      elim (Option-cases (lookup k rows)) [
        | inl missing ↦ absurd (ground arith)
        | inr (row, at) ↦
            let same : synced row (lookup k s.positions) ≡ p = ground arith in
            rw (← same) (
              synced-Within m.config.max_triggers_per_symbol row (lookup k s.positions)
                (h.counts k))
      ]

  pub entered-InPhase :
      (m : Machine F) (closed : ℕ) (rows : Dict (PositionRow F)) (s : RiskState F)
      → IsValid m s
      → IsUnique rows
      → s.pending ≡ []
      → InPhase m closed rows (entered m rows s).cooldowns (entered m rows s)
  unfolding lookup
  entered-InPhase m closed rows s h u none_left = record {
    positions_unique = IsUnique-sync_positions rows s.positions h.positions_unique;
    cooldowns_unique = IsUnique-expire_cooldowns _ _ rows s.cooldowns h.cooldowns_unique;
    pending_unique = rw none_left tt;
    keyed = λ k item e. absurd (ground arith);
    held = λ k. ground (arith, lookup-sync_positions k rows s.positions u h.positions_unique);
    cooled = λ k c. inr c;
    counts = synced-counts m rows s h u;
    ordered = λ k c e.
        let o =
          h.ordered k c (lookup-expire_cooldowns _ _ rows s.cooldowns k h.cooldowns_unique e) in
        (o.0, omega arith);
  }

module _ {F : Type 0} ⦃f : Float F⦄ (m : Machine F) where
  module _ (snap : Snapshot F) (rows : Dict (PositionRow F)) (v : RiskState F)
      (d : Dict (RiskPosition F)) (start : Dict Cooldown)
      (h : InPhase m snap.closed_at rows start v)
      (widened : update_extremes snap.bars v.positions ≡ (ok tt, d)) where
    widened-counts :
        (k : ℕ) (p : RiskPosition F) → lookup k d ≡ some p → WithinTriggers m p.trigger_count
    widened-counts k p e =
        let found = sym (lookup-update_extremes snap.bars v.positions k widened) ∙ e in
        elim (Option-cases (lookup k snap.bars)) [
          | inl missing ↦ absurd (ground arith)
          | inr (bar, b) ↦ elim (Option-cases (lookup k v.positions)) [
            | inl missing ↦ absurd (ground arith)
            | inr (q, at) ↦
                let same : widen bar q ≡ p = ground arith in
                rw (← same, widen-trigger_count bar q) (h.counts k q at)
          ]
        ]

    pub advanced-IsValid :
        (equity : F)
        → IsUnique rows
        → IsUnique start
        → union_size rows start ≤ m.max_risk_state_rows
        → length v.pending ≤ m.max_pending_risk_intents
        → IsValid m (advance snap equity (record v { positions = d }))
    unfolding advance
    advanced-IsValid equity u us within bound = record {
      positions_unique = IsUnique-update_extremes snap.bars v.positions widened h.positions_unique;
      cooldowns_unique = h.cooldowns_unique;
      intents = record {
        unique = h.pending_unique;
        keyed = λ k item e. let i = h.keyed k item e in (i.0, ground arith);
      };
      rows_within =
          le_trans
            (union_size-le rows start d v.cooldowns u us
              (IsUnique-update_extremes snap.bars v.positions widened h.positions_unique)
              h.cooldowns_unique
              (λ k. contains-update_extremes snap.bars v.positions k widened ∙ h.held k) h.cooled)
            within;
      pending_within = bound;
      counts = widened-counts;
      ordered = h.ordered;
    }
