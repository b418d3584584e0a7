-- ===== src/Rank/Crossover.antt =====
-- FactorCrossoverTracker of src/bfbt/portfolio/crossover.py: a side only after the scores of two
-- adjacent snapshots lie on the two sides of a threshold.
use bfbt.Base.{
  ℕ, Bool, false, not, ◌&&◌, ◌||◌, Option, none, some, List, [], ◌∷◌, ◌++◌, map, ltb, leb, ◌==◌,
  if◌then◌else◌, length, any, sort_by,
}
use bfbt.Config.Selection.{FactorCrossover, SelectionMode, RankSelection}
use bfbt.Dict.{Dict, lookup, insert, sort}
use bfbt.Exec.{Exec, Result, ok, err, ◌>>=◌, ◌>>◌, pure, raise_if}
use bfbt.Float.{Float}
use bfbt.Rank.Row.{Side, Selected, PortfolioError, sort_selected}
use bfbt.Rank.Descent.{keep_seen, is_stale}

-- A row of the scores; `value` is null or a float.
pub record ScoreRow (F : Type 0) : Type 0 where
  pub timestamp : ℕ
  pub symbol : ℕ
  pub value : Option F
  pub is_valid : Bool
  pub factor_version : ℕ
  pub universe_version : ℕ

-- A row that passed the filter, with its score.
pub record Scored (F : Type 0) : Type 0 where
  pub timestamp : ℕ
  pub symbol : ℕ
  pub score : F
  pub factor_version : ℕ
  pub universe_version : ℕ

-- A row of `_STATE_SCHEMA`.
pub record LastScore (F : Type 0) : Type 0 where
  pub previous_score : F
  pub last_seen_time : ℕ

-- `self._state` and `self._last_time`.
pub record CrossTracker (F : Type 0) : Type 0 where
  pub state : Dict (LastScore F)
  pub last_time : Option ℕ

module _ {F : Type 0} where
  -- `snapshot.item(0, "timestamp")`; no snapshot is empty.
  abbrev pub score_time : List (Scored F) → ℕ
  score_time [] = 0
  score_time (r ∷ rows) = r.timestamp

  -- `sort(["timestamp", "symbol"])`
  scored_before : Scored F → Scored F → Bool
  scored_before a b =
      ltb a.timestamp b.timestamp || (a.timestamp == b.timestamp && leb a.symbol b.symbol)

  -- `partition_by("timestamp", maintain_order=True)` of sorted rows.
  unfoldable pub partition_scores : List (Scored F) → List (List (Scored F))
  partition_scores [] = []
  partition_scores (r ∷ rows) =
      let parts = partition_scores rows in
      elim parts [
        | [] ↦ (r ∷ []) ∷ []
        | s ∷ ss ↦ if r.timestamp == score_time s then (r ∷ s) ∷ ss else (r ∷ []) ∷ s ∷ ss
      ]

module _ {F : Type 0} ⦃f : Float F⦄ where
  -- The filter of `select`.
  unfoldable pub valid_rows : List (ScoreRow F) → List (Scored F)
  valid_rows [] = []
  valid_rows (r ∷ rows) =
      let rest = valid_rows rows in
      elim r.value [
        | none ↦ rest
        | some x ↦
            if r.is_valid && f.is_finite x
            then record {
              timestamp = r.timestamp;
              symbol = r.symbol;
              score = x;
              factor_version = r.factor_version;
              universe_version = r.universe_version;
            }
              ∷ rest
            else rest
      ]

  -- The side of a score after the prior score.
  unfoldable pub crossing : FactorCrossover F → F → F → Option Side
  crossing c prior score =
      if f.le prior c.entry_threshold && f.lt c.entry_threshold score
      then some Side.long
      else if f.le c.exit_threshold prior && f.lt score c.exit_threshold
      then some Side.flat
      else none

  -- The side of one row, and none where the tracker has no prior score or it is no decision time.
  unfoldable pub side_after : FactorCrossover F → Bool → Option (LastScore F) → F → Option Side
  unfolding crossing
  side_after c emit none score = none
  side_after c emit (some p) score = if emit then crossing c p.previous_score score else none

  crossover_rows : ℕ → ℕ → Scored F → Option Side → List (Selected F)
  crossover_rows time count row none = []
  crossover_rows time count row (some side) =
      record {
        signal_time = time;
        rank_source_time = none;
        symbol = row.symbol;
        score = row.score;
        side = side;
        factor_version = row.factor_version;
        universe_version = row.universe_version;
        ordinal_rank = none;
        sample_count = count;
      }
      ∷ []

  -- One row of the loop of `select`.
  unfoldable pub score_row :
      FactorCrossover F
      → Bool
      → ℕ
      → ℕ
      → Scored F
      → Dict (LastScore F)
      → Dict (LastScore F) × List (Selected F)
  unfolding side_after crossover_rows
  score_row c emit time count row d = (
    insert row.symbol (record { previous_score = row.score; last_seen_time = time }) d,
    crossover_rows time count row (side_after c emit (lookup row.symbol d) row.score),
  )

  unfoldable pub score_rows :
      FactorCrossover F
      → Bool
      → ℕ
      → ℕ
      → List (Scored F)
      → Dict (LastScore F)
      → Dict (LastScore F) × List (Selected F)
  unfolding score_row
  score_rows c emit time count [] d = (d, [])
  score_rows c emit time count (row ∷ rows) d =
      let (d1, first) = score_row c emit time count row d in
      let (d2, later) = score_rows c emit time count rows d1 in (d2, first ++ later)

  -- One round of the snapshot loop of `select`.
  unfoldable pub take_scores :
      FactorCrossover F
      → ℕ
      → List ℕ
      → List (Scored F)
      → Exec PortfolioError (CrossTracker F) (List (Selected F))
  unfolding score_rows
  take_scores c limit decisions snapshot s =
      let time = score_time snapshot in
      let emit = any (λ t. time == t) decisions in
      let seen = keep_seen (map (λ r. r.symbol) snapshot) s.state in
      let (d, rows) = score_rows c emit time (length snapshot) snapshot seen in
      let t : CrossTracker F = record { state = d; last_time = some time } in
      if is_stale s.last_time time
      then (err PortfolioError.not_advancing, s)
      else if ltb limit (length d)
      then (err PortfolioError.state_rows_exceeded, t)
      else (ok rows, t)

  unfoldable pub take_all_scores :
      FactorCrossover F
      → ℕ
      → List ℕ
      → List (List (Scored F))
      → Exec PortfolioError (CrossTracker F) (List (Selected F))
  take_all_scores c limit decisions [] = pure []
  take_all_scores c limit decisions (snapshot ∷ snapshots) = do
    first ← take_scores c limit decisions snapshot
    later ← take_all_scores c limit decisions snapshots
    pure (first ++ later)

  same_float : F → F → Bool
  same_float a b = f.le a b && f.le b a

  -- `selection.mode == "factor_crossover" and selection.crossover == self.config`
  matches : FactorCrossover F → RankSelection F → Bool
  unfolding same_float
  matches c selection = elim selection.mode [
    | SelectionMode.factor_crossover ↦ elim selection.crossover [
      | none ↦ false
      | some x ↦
          same_float c.entry_threshold x.entry_threshold
          && same_float c.exit_threshold x.exit_threshold
    ]
    | _ ↦ false
  ]

  -- `select`, given the rows of the scores and the decision times.
  unfoldable pub select_crossover :
      FactorCrossover F
      → ℕ
      → RankSelection F
      → List ℕ
      → List (ScoreRow F)
      → Exec PortfolioError (CrossTracker F) (List (Selected F))
  unfolding matches scored_before partition_scores valid_rows
  select_crossover c limit selection decisions scores = do
    raise_if (not (matches c selection)) PortfolioError.config_mismatch
    rows ←
        take_all_scores c limit decisions
          (partition_scores (sort_by scored_before (valid_rows scores)))
    pure (sort_selected rows)

module _ {F : Type 0} where
  -- `max(row["last_seen_time"] for row in self._state.values())`
  unfoldable pub latest_score : Dict (LastScore F) → Option ℕ
  latest_score [] = none
  latest_score (e ∷ d) = elim (latest_score d) [
    | none ↦ some e.1.last_seen_time
    | some t ↦ some (if leb t e.1.last_seen_time then e.1.last_seen_time else t)
  ]

  unfoldable pub score_dict : List (ℕ × LastScore F) → Dict (LastScore F) → Dict (LastScore F)
  score_dict [] d = d
  score_dict (e ∷ rows) d = score_dict rows (insert e.0 e.1 d)

  -- `FactorCrossoverTracker.__init__`, given the restored rows and whether they have the columns.
  unfoldable pub create_crossover :
      ℕ → Bool → List (ℕ × LastScore F) → Result PortfolioError (CrossTracker F)
  unfolding latest_score score_dict
  create_crossover limit has_columns rows =
      if ltb limit 1
      then err PortfolioError.bad_budget
      else if not has_columns
      then err PortfolioError.missing_columns
      else if ltb limit (length rows)
      then err PortfolioError.state_rows_exceeded
      else if not (length (score_dict rows []) == length rows)
      then err PortfolioError.duplicate_symbols
      else ok (record { state = score_dict rows []; last_time = latest_score (score_dict rows []) })

  -- `export_state`
  unfoldable pub export_scores : CrossTracker F → List (ℕ × LastScore F)
  export_scores s = sort s.state
