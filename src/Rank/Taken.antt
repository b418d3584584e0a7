-- ===== src/Rank/Taken.antt =====
-- What a snapshot that the rank descent tracker takes leaves, for every symbol.
use bfbt.Base.{
  ℕ, ◌≤◌, ◌≡◌, refl, sym, ap, inl, inr, Bool, false, none, some, List, map, arith, ltb, ◌==◌,
  if◌then◌else◌, ltb_false→le, Bool-cases, Option-cases, is_some, length, any,
}
use Prim.Native.Nat.{ℕ, ◌≤◌}
use mathlib.Core.Path.{◌≡◌, refl, sym, ap}
use mathlib.Core.Bool.{Bool, false}
use mathlib.Core.Option.{none, some}
use mathlib.Core.List.{List, map}
use native.Mathlib.Omega.{arith}
use bfbt.Config.Selection.{RankDescent, Clock}
use bfbt.Dict.{Dict, lookup, IsUnique}
use bfbt.Dict.Laws.{lookup-filter_items}
use bfbt.Dict.Unique.{IsUnique-filter_items}
use bfbt.Exec.{ok}
use bfbt.Exec.Laws.{ok-injective}
use bfbt.Rank.Row.{RankRow, Selected, Diagnostic}
use bfbt.Rank.Descent.{RankPath, Tracker, keep_seen, is_stale, advance_rows, time_of, take_snapshot}
use bfbt.Rank.Refine.{
  rank_in, IsDistinct, is_selected, symbol_step, any-rank_in, lookup-advance_rows,
  is_selected-advance_rows,
}

past_guards :
    {A : Type 0} (a b : Bool) (x y z : A) {w : A}
    → a ≡ false
    → b ≡ false
    → (if a then x else if b then y else z) ≡ w
    → z ≡ w
past_guards a b x y z p q h = ground arith

module _ {F : Type 0} where
  -- Whether a snapshot's time is a decision time.
  abbrev pub decides : List ℕ → List (RankRow F) → Bool
  decides decisions snapshot = any (λ t. time_of snapshot == t) decisions

  -- The state without the symbols that a snapshot lacks.
  abbrev pub seen_state : List (RankRow F) → Tracker → Dict RankPath
  seen_state snapshot s = keep_seen (map (λ r. r.symbol) snapshot) s.state

  pub IsUnique-seen_state :
      (snapshot : List (RankRow F)) (s : Tracker)
      → IsUnique s.state
      → IsUnique (seen_state snapshot s)
  unfolding keep_seen
  IsUnique-seen_state snapshot s u = IsUnique-filter_items _ s.state u

  lookup-seen_state :
      (x : ℕ) (snapshot : List (RankRow F)) (s : Tracker)
      → IsUnique s.state
      → lookup x (seen_state snapshot s)
        ≡ (if is_some (rank_in x snapshot) then lookup x s.state else none)
  unfolding keep_seen
  lookup-seen_state x snapshot s u = ground (
    arith,
    any-rank_in x snapshot,
    lookup-filter_items (λ k _. any (λ y. k == y) (map (λ r. r.symbol) snapshot)) x s.state u,
  )

module _ {F : Type 0} (c : RankDescent) (limit : ℕ) (clock : Clock) (decisions : List ℕ) where
  -- What a snapshot that is taken leaves.
  pub record Taken (snapshot : List (RankRow F)) (s : Tracker)
      (rows : List (Selected F × Diagnostic)) (t : Tracker) : Type 0 where
    pub advances : is_stale s.last_time (time_of snapshot) ≡ false
    pub state_after :
        t.state
        ≡ (advance_rows c clock
            (decides decisions snapshot)
            (time_of snapshot)
            snapshot
            (seen_state snapshot s)).0
    pub rows_after :
        rows
        ≡ (advance_rows c clock
            (decides decisions snapshot)
            (time_of snapshot)
            snapshot
            (seen_state snapshot s)).1
    pub time_after : t.last_time ≡ some (time_of snapshot)
    pub within : length t.state ≤ limit

  taken_eq :
      (snapshot : List (RankRow F)) (s : Tracker) {rows : List (Selected F × Diagnostic)}
      {t : Tracker}
      → is_stale s.last_time (time_of snapshot) ≡ false
      → ltb limit (
          length
            (advance_rows c clock
              (decides decisions snapshot)
              (time_of snapshot)
              snapshot
              (seen_state snapshot s)).0)
        ≡ false
      → take_snapshot c limit clock decisions snapshot s ≡ (ok rows, t)
      → ((advance_rows c clock
            (decides decisions snapshot)
            (time_of snapshot)
            snapshot
            (seen_state snapshot s)).1
          ≡ rows)
        × (record {
          state =
              (advance_rows c clock
                (decides decisions snapshot)
                (time_of snapshot)
                snapshot
                (seen_state snapshot s)).0;
          last_time = some (time_of snapshot);
        }
            ≡ t)
  unfolding take_snapshot
  taken_eq snapshot s fresh within h =
      let e = past_guards _ _ _ _ _ fresh within h in
      (ok-injective (ap (λ r. r.0) e), ap (λ r. r.1) e)

  pub take_snapshot-Taken :
      (snapshot : List (RankRow F)) (s : Tracker) {rows : List (Selected F × Diagnostic)}
      {t : Tracker}
      → take_snapshot c limit clock decisions snapshot s ≡ (ok rows, t)
      → Taken snapshot s rows t
  unfolding take_snapshot
  take_snapshot-Taken snapshot s h = elim (Bool-cases (is_stale s.last_time (time_of snapshot))) [
    | inl stale ↦ absurd (ground arith)
    | inr fresh ↦
        elim (Bool-cases (
          ltb limit (
            length
              (advance_rows c clock (decides decisions snapshot) (time_of snapshot) snapshot
                (seen_state snapshot s)).0))) [
                  | inl over ↦ absurd (ground arith)
                  | inr within ↦
                      let (ok_rows, after) = taken_eq snapshot s fresh within h in
                      record {
                        advances = fresh;
                        state_after = ap (λ x. x.state) (sym after);
                        rows_after = sym ok_rows;
                        time_after = ap (λ x. x.last_time) (sym after);
                        within = rw (← after) (ltb_false→le _ _ within);
                      }
                ]
  ]

  advance_rows_refines :
      (x : ℕ) (snapshot : List (RankRow F)) (s : Tracker)
      → IsUnique s.state
      → IsDistinct snapshot
      → (
        lookup x
            (advance_rows c clock
              (decides decisions snapshot)
              (time_of snapshot)
              snapshot
              (seen_state snapshot s)).0,
        is_selected x
            (advance_rows c clock
              (decides decisions snapshot)
              (time_of snapshot)
              snapshot
              (seen_state snapshot s)).1,
      )
        ≡ symbol_step c
            (decides decisions snapshot)
            (time_of snapshot)
            (rank_in x snapshot)
            (lookup x s.state)
  unfolding symbol_step
  advance_rows_refines x snapshot s u n =
      let emit = decides decisions snapshot in
      let time = time_of snapshot in
      let d = seen_state snapshot s in
      let v : IsUnique d = IsUnique-seen_state snapshot s u in
      let kept = lookup-advance_rows c clock emit time x snapshot d v n in
      let chosen = is_selected-advance_rows c clock emit time x snapshot d v n in
      let seen = lookup-seen_state x snapshot s u in
      elim (Option-cases (rank_in x snapshot)) [
        | inl absent ↦ rw (kept, chosen, absent) (rw (seen, absent) refl)
        | inr (rank, present) ↦ rw (kept, chosen, present) (rw (seen, present) refl)
      ]

  -- A snapshot without a repeated symbol that is taken from a state without a repeated symbol
  -- moves each symbol by its own automaton: a symbol that the snapshot lacks loses its path,
  -- another goes on by its rank alone, and the symbols that are selected are those whose own
  -- automaton selects.
  pub take_snapshot_refines :
      (snapshot : List (RankRow F)) (s : Tracker) {rows : List (Selected F × Diagnostic)}
      {t : Tracker} (x : ℕ)
      → IsUnique s.state
      → IsDistinct snapshot
      → take_snapshot c limit clock decisions snapshot s ≡ (ok rows, t)
      → (lookup x t.state, is_selected x rows)
        ≡ symbol_step c
            (decides decisions snapshot)
            (time_of snapshot)
            (rank_in x snapshot)
            (lookup x s.state)
  take_snapshot_refines snapshot s x u n h =
      let k = take_snapshot-Taken snapshot s h in
      rw (k.state_after, k.rows_after) (advance_rows_refines x snapshot s u n)
