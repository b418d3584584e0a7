-- ===== src/Rank/Trace.antt =====
-- The paths that the rank descent tracker keeps, against the snapshots it has consumed.
use bfbt.Base.{
  ℕ, ◌≤◌, ◌<◌, ◌≡◌, refl, sym, ap, ◌∙◌, subst, ◌⊎◌, inl, inr, Bool, true, false, Option, none, some,
  List, [], ◌∷◌, arith,
}
use Prim.Native.Nat.{ℕ, ◌≤◌}
use mathlib.Core.Path.{◌≡◌, refl, sym, ap, ◌∙◌}
use mathlib.Core.Bool.{Bool, true, false}
use mathlib.Core.Option.{Option, none, some}
use mathlib.Core.List.{List, [], ◌∷◌}
use native.Mathlib.Omega.{arith}
use bfbt.Config.Selection.{RankDescent, Clock}
use bfbt.Dict.{lookup, IsUnique}
use bfbt.Exec.{ok}
use bfbt.Rank.Row.{RankRow, Selected, Diagnostic}
use bfbt.Rank.Descent.{
  RankPath, Tracker, resets, begin_path, try_begin, advance_path, time_of, take_snapshot,
}
use bfbt.Rank.Refine.{rank_in, IsDistinct, is_selected, symbol_step, advance_rows-IsUnique}
use bfbt.Rank.Taken.{decides, take_snapshot-Taken, IsUnique-seen_state, take_snapshot_refines}
use bfbt.Config.Selection.{validate_path}

module _ {F : Type 0} (c : RankDescent) (x : ℕ) where
  -- The last snapshots, latest first, in each of which the symbol had a rank that did not reset
  -- its path, from the one at which the path began at a rank of at least `start_rank_at_least`.
  pub data Descends : List (List (RankRow F)) → RankPath → Type 0 where
    begun :
        (snapshot : List (RankRow F)) (history : List (List (RankRow F))) (rank : ℕ)
        → rank_in x snapshot ≡ some rank
        → c.start_rank_at_least ≤ rank
        → Descends (snapshot ∷ history) (begin_path rank (time_of snapshot))
    went_on :
        (snapshot : List (RankRow F)) (history : List (List (RankRow F))) (rank : ℕ) (p : RankPath)
        → Descends history p
        → rank_in x snapshot ≡ some rank
        → resets c p.previous_rank rank ≡ false
        → Descends
            (snapshot ∷ history)
            (record p { previous_rank = rank; last_seen_time = time_of snapshot })

  -- A path begins far enough down and only goes up from there.
  pub Descends-bounds :
      {history : List (List (RankRow F))} {p : RankPath}
      → Descends history p
      → (c.start_rank_at_least ≤ p.sequence_start_rank) × (p.previous_rank ≤ p.sequence_start_rank)
  unfolding begin_path resets
  Descends-bounds (begun snapshot history rank found far) = (far, omega arith)
  Descends-bounds (went_on snapshot history rank p d found on) =
      let (far, up) = Descends-bounds d in (far, ground arith)

module _ (c : RankDescent) (emit : Bool) (rank time : ℕ) where
  advance_path-keeps :
      (o : Option RankPath) {q : RankPath}
      → (advance_path c emit rank time o).0 ≡ some q
      → ((c.start_rank_at_least ≤ rank) × (begin_path rank time ≡ q))
        ⊎ ((p : RankPath) × (o ≡ some p)
            × (resets c p.previous_rank rank ≡ false)
            × (record p { previous_rank = rank; last_seen_time = time } ≡ q))
  unfolding advance_path try_begin
  advance_path-keeps o h = ground arith

  advance_path-selects :
      (o : Option RankPath)
      → (advance_path c emit rank time o).1 ≡ true
      → (p : RankPath) × (o ≡ some p)
        × (resets c p.previous_rank rank ≡ false)
        × (rank ≡ c.entry_rank)
        × (emit ≡ true)
  unfolding advance_path
  advance_path-selects o h = ground arith

module _ {F : Type 0} (c : RankDescent) (limit : ℕ) (clock : Clock) (decisions : List ℕ) where
  -- The trackers that a new one becomes by taking snapshots, latest first.
  pub data Consumed : List (List (RankRow F)) → Tracker → Type 0 where
    unused : Consumed [] (record { state = []; last_time = none })
    took :
        (snapshot : List (RankRow F)) (history : List (List (RankRow F))) (s t : Tracker)
        (rows : List (Selected F × Diagnostic))
        → Consumed history s
        → IsDistinct snapshot
        → take_snapshot c limit clock decisions snapshot s ≡ (ok rows, t)
        → Consumed (snapshot ∷ history) t

  pub Consumed-IsUnique :
      {history : List (List (RankRow F))} {s : Tracker} → Consumed history s → IsUnique s.state
  Consumed-IsUnique unused = tt
  Consumed-IsUnique (took snapshot history s t rows k n h) =
      let taken = take_snapshot-Taken c limit clock decisions snapshot s h in
      rw taken.state_after (
        advance_rows-IsUnique c clock _ _ snapshot _
          (IsUnique-seen_state snapshot s (Consumed-IsUnique k)))

  -- The path of a symbol after a snapshot, where it has one.
  step-Descends :
      (x : ℕ) (snapshot : List (RankRow F)) (history : List (List (RankRow F)))
      (o : Option RankPath) (r : Option ℕ) {q : RankPath}
      → rank_in x snapshot ≡ r
      → ((p : RankPath) → o ≡ some p → Descends c x history p)
      → (symbol_step c (decides decisions snapshot) (time_of snapshot) r o).0 ≡ some q
      → Descends c x (snapshot ∷ history) q
  unfolding symbol_step
  step-Descends x snapshot history o none found before h = absurd (ground arith)
  step-Descends x snapshot history o (some rank) found before h =
      elim (advance_path-keeps c _ rank (time_of snapshot) o h) [
        | inl (far, same) ↦
            subst (Descends c x (snapshot ∷ history)) same
              (Descends.begun snapshot history rank found far)
        | inr (p, at, on, same) ↦
            subst (Descends c x (snapshot ∷ history)) same
              (Descends.went_on snapshot history rank p (before p at) found on)
      ]

  -- Where a new tracker has taken snapshots without repeated symbols, every path it keeps is one
  -- that the snapshots show: the symbol was in each of the last snapshots since the path began, at
  -- `start_rank_at_least` or below, and no rank reset it.
  pub Consumed-Descends :
      (x : ℕ) {history : List (List (RankRow F))} {s : Tracker} {q : RankPath}
      → Consumed history s
      → lookup x s.state ≡ some q
      → Descends c x history q
  unfolding lookup
  Consumed-Descends x unused h = absurd (ground arith)
  Consumed-Descends x (took snapshot history s t rows k n e) h =
      step-Descends x snapshot history (lookup x s.state) (rank_in x snapshot) refl
        (λ p at. Consumed-Descends x k at)
        (ap (λ y. y.0)
            (sym (
              take_snapshot_refines c limit clock decisions snapshot s x (Consumed-IsUnique k) n e))
          ∙ h)

  step_selects :
      (x : ℕ) (snapshot : List (RankRow F)) (o : Option RankPath) (r : Option ℕ)
      → (symbol_step c (decides decisions snapshot) (time_of snapshot) r o).1 ≡ true
      → (p : RankPath) × (o ≡ some p)
        × (r ≡ some c.entry_rank)
        × (resets c p.previous_rank c.entry_rank ≡ false)
        × (decides decisions snapshot ≡ true)
  unfolding symbol_step
  step_selects x snapshot o none h = absurd (ground arith)
  step_selects x snapshot o (some rank) h =
      let (p, at, on, entry, emit) = advance_path-selects c _ rank (time_of snapshot) o h in
      (p, at, ap some entry, subst (λ (n : ℕ). resets c p.previous_rank n ≡ false) entry on, emit)

  -- Where a new tracker with a validated path takes snapshots without repeated symbols, a symbol
  -- is selected only at a decision time, and only at the end of a
  -- path that the snapshots show, which began at a rank below the entry rank, at
  -- `start_rank_at_least` or further down, and has now reached the entry rank.
  pub selected-Descends :
      (x : ℕ) (snapshot : List (RankRow F)) {history : List (List (RankRow F))} {s t : Tracker}
      {rows : List (Selected F × Diagnostic)}
      → validate_path c ≡ ok tt
      → Consumed history s
      → IsDistinct snapshot
      → take_snapshot c limit clock decisions snapshot s ≡ (ok rows, t)
      → is_selected x rows ≡ true
      → (decides decisions snapshot ≡ true)
        × (rank_in x snapshot ≡ some c.entry_rank)
        × ((q : RankPath) × Descends c x (snapshot ∷ history) q
            × (q.previous_rank ≡ c.entry_rank)
            × (c.start_rank_at_least ≤ q.sequence_start_rank)
            × (c.entry_rank < q.sequence_start_rank))
  unfolding validate_path
  selected-Descends x snapshot {s = s} v k n e h =
      let own =
        ap (λ y. y.1)
          (sym
            (take_snapshot_refines c limit clock decisions snapshot s x (Consumed-IsUnique k) n e))
        ∙ h in
      let (p, at, entry, on, decided) =
        step_selects x snapshot (lookup x s.state) (rank_in x snapshot) own in
      let before = Consumed-Descends x k at in
      let far = (Descends-bounds c x before).0 in
      (
        decided,
        entry,
        (
          record p { previous_rank = c.entry_rank; last_seen_time = time_of snapshot },
          Descends.went_on snapshot _ c.entry_rank p before entry on,
          refl,
          far,
          ground arith,
        ),
      )
