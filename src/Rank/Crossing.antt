-- ===== src/Rank/Crossing.antt =====
-- The crossover tracker over a history of snapshots.
use bfbt.Base.{
  ℕ, ◌≡◌, refl, sym, ap, ◌∙◌, Bool, Option, none, some, List, [], ◌∷◌, arith, ltb, ◌==◌,
  if◌then◌else◌, length, any,
}
use bfbt.Config.Selection.{FactorCrossover}
use bfbt.Dict.{lookup, IsUnique}
use bfbt.Exec.{ok}
use bfbt.Exec.Laws.{ok-injective, guards-eq-ok}
use bfbt.Float.{Float}
use bfbt.Rank.Row.{Side, Selected, PortfolioError}
use bfbt.Rank.Descent.{is_stale}
use bfbt.Rank.Crossover.{
  Scored, LastScore, CrossTracker, score_time, crossing, side_after, score_rows, take_scores,
}
use bfbt.Rank.Adjacent.{
  score_in, HasOneScore, side_of, seen_scores, lookup-seen_scores, IsUnique-seen_scores,
  score_rows-IsUnique, lookup-score_rows, side_of-score_rows,
}

module _ {F : Type 0} where
  -- Whether a snapshot's time is a decision time.
  abbrev pub decided_at : List ℕ → List (Scored F) → Bool
  decided_at decisions snapshot = any (λ t. score_time snapshot == t) decisions

  -- The score that a symbol has in the last snapshot consumed.
  abbrev pub last_score : ℕ → List (List (Scored F)) → Option F
  last_score x [] = none
  last_score x (snapshot ∷ history) = score_in x snapshot

  abbrev pub prior_of : Option (LastScore F) → Option F
  prior_of none = none
  prior_of (some p) = some p.previous_score

module _ {F : Type 0} ⦃f : Float F⦄ where
  -- What the scores of a symbol in two adjacent snapshots decide.
  unfoldable pub adjacent_crossing : FactorCrossover F → Option F → Option F → Option Side
  adjacent_crossing c none now = none
  adjacent_crossing c (some prior) none = none
  adjacent_crossing c (some prior) (some score) = crossing c prior score

module _ {F : Type 0} ⦃f : Float F⦄ (c : FactorCrossover F) (limit : ℕ) (decisions : List ℕ) where
  -- What a snapshot that is taken leaves.
  pub record TakenScores (snapshot : List (Scored F)) (s : CrossTracker F)
      (rows : List (Selected F)) (t : CrossTracker F) : Type 0 where
    pub state_after :
        t.state
        ≡ (score_rows c
            (decided_at decisions snapshot)
            (score_time snapshot)
            (length snapshot)
            snapshot
            (seen_scores snapshot s)).0
    pub rows_after :
        rows
        ≡ (score_rows c
            (decided_at decisions snapshot)
            (score_time snapshot)
            (length snapshot)
            snapshot
            (seen_scores snapshot s)).1

  take_scores-TakenScores :
      (snapshot : List (Scored F)) (s : CrossTracker F) {rows : List (Selected F)}
      {t : CrossTracker F}
      → take_scores c limit decisions snapshot s ≡ (ok rows, t)
      → TakenScores snapshot s rows t
  unfolding take_scores
  take_scores-TakenScores snapshot s h =
      let time = score_time snapshot in
      let run =
        score_rows c (decided_at decisions snapshot) time (length snapshot) snapshot
          (seen_scores snapshot s) in
      let after : CrossTracker F = record { state = run.0; last_time = some time } in
      let (fresh, within, e) =
        guards-eq-ok (is_stale s.last_time time) (ltb limit (length run.0))
          PortfolioError.not_advancing PortfolioError.state_rows_exceeded s after (ok run.1, after)
          h in
      record {
        state_after = ap (λ x. x.state) (sym (ap (λ r. r.1) e));
        rows_after = sym (ok-injective (ap (λ r. r.0) e));
      }

  -- The trackers that a new one becomes by taking snapshots, latest first.
  pub data Followed : List (List (Scored F)) → CrossTracker F → Type 0 where
    unused : Followed [] (record { state = []; last_time = none })
    took :
        (snapshot : List (Scored F)) (history : List (List (Scored F))) (s t : CrossTracker F)
        (rows : List (Selected F))
        → Followed history s
        → HasOneScore snapshot
        → take_scores c limit decisions snapshot s ≡ (ok rows, t)
        → Followed (snapshot ∷ history) t

  Followed-IsUnique :
      {history : List (List (Scored F))} {s : CrossTracker F}
      → Followed history s
      → IsUnique s.state
  Followed-IsUnique unused = tt
  Followed-IsUnique (took snapshot history s t rows k n h) =
      let taken = take_scores-TakenScores snapshot s h in
      rw taken.state_after (
        score_rows-IsUnique c _ _ _ snapshot _
          (IsUnique-seen_scores snapshot s (Followed-IsUnique k)))

  -- The tracker knows of each symbol its score in the last snapshot, and nothing else.
  Followed-last_score :
      (x : ℕ) {history : List (List (Scored F))} {s : CrossTracker F}
      → Followed history s
      → prior_of (lookup x s.state) ≡ last_score x history
  unfolding lookup
  Followed-last_score x unused = refl
  Followed-last_score x (took snapshot history s t rows k n h) =
      let taken = take_scores-TakenScores snapshot s h in
      let found =
        lookup-score_rows c (decided_at decisions snapshot) (score_time snapshot) (length snapshot)
          x snapshot (seen_scores snapshot s) n in
      let seen = lookup-seen_scores x snapshot s (Followed-IsUnique k) in
      rw taken.state_after (ground (arith, found, seen))

  adjacent_side :
      (emit : Bool) (o : Option (LastScore F)) (now prior : Option F)
      → prior_of o ≡ prior
      → elim now [ none ↦ none | some v ↦ side_after c emit o v ]
        ≡ (if emit then adjacent_crossing c prior now else none)
  unfolding side_after adjacent_crossing
  adjacent_side emit o now prior h = ground arith

  -- Where a new tracker takes snapshots without repeated symbols, a symbol is given the side that
  -- its scores in the last snapshot and in this one decide by the thresholds, at a decision time,
  -- and no side where it lacks one of the two scores or at other times.
  pub take_scores_crosses :
      (x : ℕ) (snapshot : List (Scored F)) {history : List (List (Scored F))} {s t : CrossTracker F}
      {rows : List (Selected F)}
      → Followed history s
      → HasOneScore snapshot
      → take_scores c limit decisions snapshot s ≡ (ok rows, t)
      → side_of x rows ≡ (
          if decided_at decisions snapshot
          then adjacent_crossing c (last_score x history) (score_in x snapshot)
          else none)
  take_scores_crosses x snapshot {history} {s} k n h =
      let taken = take_scores-TakenScores snapshot s h in
      let sides =
        side_of-score_rows c (decided_at decisions snapshot) (score_time snapshot) (length snapshot)
          x snapshot (seen_scores snapshot s) n in
      let seen = lookup-seen_scores x snapshot s (Followed-IsUnique k) in
      let own =
        adjacent_side (decided_at decisions snapshot) (lookup x s.state) (score_in x snapshot)
          (last_score x history) (Followed-last_score x k) in
      rw taken.rows_after (sides ∙ ground (arith, seen, own))
