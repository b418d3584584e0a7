-- ===== src/Risk/Session.antt =====
-- The operations of the risk machine in sequence: what each keeps, and every state they lead to.
use bfbt.Base.{ℕ, ◌+◌, ◌≡◌, refl, subst, Bool, not, ◌⊎◌, inl, inr, arith, ◌==◌, length, map}
use native.Mathlib.Nat.{le_trans}
use bfbt.Config.ExitRules.{TriggerPrice}
use bfbt.Dict.{Dict, lookup, erase, filter_items, keep_if, union_size}
use bfbt.Dict.Laws.{lookup-filter_items, lookup-filter_items-some}
use bfbt.Dict.Unique.{IsUnique-filter_items}
use bfbt.Dict.Count.{union_size-le}
use bfbt.Exec.{ok}
use bfbt.Float.{Float}
use bfbt.Risk.State.{RiskState, Machine, Frame, BarRow, PositionInput}
use bfbt.Risk.Checkpoint.{initial}
use bfbt.Risk.Evaluate.{RiskEvaluation, evaluate}
use bfbt.Risk.Fill.{RiskFillBatch, due_at, drain_due, reentry_decision}
use bfbt.Risk.Invariant.{IsValid, HasIntents}
use bfbt.Risk.Preserve.{evaluate-IsValid}
use bfbt.Risk.Drain.{
  drain_due-Drained, erase_all, IsUnique-erase_all, length-erase_all, lookup-erase_all,
  has_symbol-due_at, row_key, item_key, IsDueOrder, due_at-IsDueOrder,
}

module _ {F : Type 0} where
  -- Exactly the intents due at `time` leave.
  lookup-drained :
      (time k : ℕ) (s : RiskState F)
      → HasIntents s
      → lookup k (erase_all (due_at time s.pending) s.pending)
        ≡ keep_if (λ item. not (item.fill_time == time)) (lookup k s.pending)
  lookup-drained time k s h = ground (
    arith,
    lookup-erase_all k (due_at time s.pending) s.pending h.unique,
    has_symbol-due_at k time s.pending h.unique (λ j item e. (h.keyed j item e).0),
  )

  drained-IsValid :
      (m : Machine F) (time n : ℕ) (s : RiskState F)
      → IsValid m s
      → IsValid m (record s { sequence = n; pending = erase_all (due_at time s.pending) s.pending })
  drained-IsValid m time n s h = record {
    positions_unique = h.positions_unique;
    cooldowns_unique = h.cooldowns_unique;
    intents = record {
      unique = IsUnique-erase_all (due_at time s.pending) s.pending h.intents.unique;
      keyed =
          λ k item e. h.intents.keyed k item (ground (arith, lookup-drained time k s h.intents));
    };
    rows_within = h.rows_within;
    pending_within = le_trans (length-erase_all (due_at time s.pending) s.pending) h.pending_within;
    counts = h.counts;
    ordered = h.ordered;
  }

  erased-IsValid :
      (m : Machine F) (symbol : ℕ) (s : RiskState F)
      → IsValid m s
      → IsValid m (record s { cooldowns = erase symbol s.cooldowns })
  erased-IsValid m symbol s h =
      let u = IsUnique-filter_items (λ j _. not (symbol == j)) s.cooldowns h.cooldowns_unique in
      record {
        positions_unique = h.positions_unique;
        cooldowns_unique = u;
        intents = record { unique = h.intents.unique; keyed = h.intents.keyed };
        rows_within =
            le_trans
              (union_size-le s.positions s.cooldowns s.positions (erase symbol s.cooldowns)
                h.positions_unique h.cooldowns_unique h.positions_unique u (λ k. refl)
                (λ k c. inr (
                  ground (
                    arith,
                    lookup-filter_items (λ j _. not (symbol == j)) k s.cooldowns h.cooldowns_unique,
                  ))))
              h.rows_within;
        pending_within = h.pending_within;
        counts = h.counts;
        ordered = λ k c e. h.ordered k c (
            lookup-filter_items-some (λ j _. not (symbol == j)) k s.cooldowns h.cooldowns_unique e);
      }

  reentry_decision-cases :
      (m : Machine F) (symbol : ℕ) (scheduled : Bool) (s : RiskState F)
      → ((reentry_decision m symbol scheduled s).1 ≡ s)
        ⊎ ((reentry_decision m symbol scheduled s).1
            ≡ record s { cooldowns = erase symbol s.cooldowns })
  unfolding reentry_decision
  reentry_decision-cases m symbol scheduled s = ground arith

  reentry_decision-IsValid :
      (m : Machine F) (symbol : ℕ) (scheduled : Bool) (s : RiskState F)
      → IsValid m s
      → IsValid m (reentry_decision m symbol scheduled s).1
  reentry_decision-IsValid m symbol scheduled s h =
      elim (reentry_decision-cases m symbol scheduled s) [
        | inl same ↦ rw same h
        | inr popped ↦ rw popped (erased-IsValid m symbol s h)
      ]

  initial-IsValid : (m : Machine F) (equity : F) → IsValid m (initial equity)
  unfolding initial lookup union_size filter_items
  initial-IsValid m equity = record {
    positions_unique = tt;
    cooldowns_unique = tt;
    intents = record { unique = tt; keyed = λ k item e. absurd (ground arith) };
    rows_within = omega arith;
    pending_within = omega arith;
    counts = λ k p e. absurd (ground arith);
    ordered = λ k c e. absurd (ground arith);
  }

module _ {F : Type 0} ⦃f : Float F⦄ (m : Machine F) where
  -- One call of the machine that returns.
  pub data Step (s t : RiskState F) : Type 0 where
    evaluated :
        (bars : Frame (BarRow F)) (positions : Frame (PositionInput F)) (equity : F)
        (source : TriggerPrice) (r : RiskEvaluation F)
        → evaluate m bars positions equity source s ≡ (ok r, t)
        → Step s t
    drained :
        (open_time : ℕ) (aware : Bool) (prices : Dict F) (positions : Frame (PositionInput F))
        (batch : RiskFillBatch F)
        → drain_due m open_time aware prices positions s ≡ (ok batch, t)
        → Step s t
    asked :
        (symbol : ℕ) (scheduled : Bool) → (reentry_decision m symbol scheduled s).1 ≡ t → Step s t

  -- The states of a session that began with a new machine.
  pub data Reachable : RiskState F → Type 0 where
    created : Reachable (initial m.initial_equity)
    stepped : {s t : RiskState F} → Reachable s → Step s t → Reachable t

  drain_due-IsValid :
      (open_time : ℕ) (aware : Bool) (prices : Dict F) (positions : Frame (PositionInput F))
      (s : RiskState F) {batch : RiskFillBatch F} {t : RiskState F}
      → IsValid m s
      → drain_due m open_time aware prices positions s ≡ (ok batch, t)
      → IsValid m t
  drain_due-IsValid open_time aware prices positions s h e =
      let d = drain_due-Drained m open_time aware prices positions s e in
      rw d.after (drained-IsValid m open_time _ s h)

  Step-IsValid : {s t : RiskState F} → IsValid m s → Step s t → IsValid m t
  Step-IsValid {s} h (evaluated bars positions equity source r e) =
      evaluate-IsValid m bars positions equity source s h e
  Step-IsValid {s} h (drained open_time aware prices positions batch e) =
      drain_due-IsValid open_time aware prices positions s h e
  Step-IsValid {s} h (asked symbol scheduled e) =
      subst (IsValid m) e (reentry_decision-IsValid m symbol scheduled s h)

  -- In every state that a session of a new machine reaches by calls that return (evaluations,
  -- drains and reentry questions), no symbol stands twice among the positions, the cooldowns or
  -- the intents; the symbols with a position or a cooldown are at most `max_risk_state_rows` and
  -- the intents at most `max_pending_risk_intents`; every intent is kept under its own symbol and
  -- is due at the last close; no trigger count passes `max_triggers_per_symbol`; and each cooldown
  -- is released after it was triggered, which was no later than the last evaluation.
  pub Reachable-IsValid : {s : RiskState F} → Reachable s → IsValid m s
  Reachable-IsValid created = initial-IsValid m m.initial_equity
  Reachable-IsValid (stepped r st) = Step-IsValid (Reachable-IsValid r) st

  -- A drain of a well-formed state that returns makes one instruction for each intent due at
  -- `open_time`, with its event, symbol, priority and time, in order of priority and symbol; it
  -- removes exactly these intents, counts one for each, and changes nothing else.
  pub drain_due_exact :
      (open_time : ℕ) (aware : Bool) (prices : Dict F) (positions : Frame (PositionInput F))
      (s : RiskState F) {batch : RiskFillBatch F} {t : RiskState F}
      → IsValid m s
      → drain_due m open_time aware prices positions s ≡ (ok batch, t)
      → (map row_key batch.instructions ≡ map item_key (due_at open_time s.pending))
        × IsDueOrder (due_at open_time s.pending)
        × ((k : ℕ)
            → lookup k t.pending
              ≡ keep_if (λ item. not (item.fill_time == open_time)) (lookup k s.pending))
        × (t ≡ record s { sequence = s.sequence + length batch.instructions; pending = t.pending })
  drain_due_exact open_time aware prices positions s h e =
      let d = drain_due-Drained m open_time aware prices positions s e in
      (
        d.keys,
        due_at-IsDueOrder open_time s.pending,
        λ k. rw d.after (lookup-drained open_time k s h.intents),
        rw d.after refl,
      )
