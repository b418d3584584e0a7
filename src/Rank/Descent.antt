-- ===== src/Rank/Descent.antt =====
-- RankDescentTracker of src/bfbt/portfolio/history.py: one monotone non-increasing path of ranks
-- per active symbol.
use bfbt.Base.{
  ℕ, Bool, true, false, not, ◌&&◌, ◌||◌, Option, none, some, List, [], ◌∷◌, ◌++◌, ◌==◌, ltb, leb,
  any, length, map, if◌then◌else◌,
}
use bfbt.Config.Selection.{RankDescent, EqualPolicy, SelectionMode, RankSelection, Clock}
use bfbt.Contracts.{ReasonCode}
use bfbt.Dict.{Dict, lookup, insert, erase, filter_items, sort}
use bfbt.Exec.{Exec, Result, ok, err, ◌>>=◌, ◌>>◌, pure, raise_if}
use bfbt.Rank.Row.{
  RankRow, Side, Selected, Diagnostic, PortfolioError, sort_selected, sort_diagnostics,
}
use bfbt.Rank.Snapshots.{iter_rank_snapshots}

-- A row of `_DESCENT_STATE_SCHEMA`.
pub record RankPath : Type 0 where
  pub previous_rank : ℕ
  pub sequence_start_rank : ℕ
  pub sequence_start_time : ℕ
  pub last_seen_time : ℕ

-- `self._state` and `self._last_time`.
pub record Tracker : Type 0 where
  pub state : Dict RankPath
  pub last_time : Option ℕ

abbrev pub is_reset : EqualPolicy → Bool
is_reset EqualPolicy.keep = false
is_reset EqualPolicy.reset = true

-- `rank > previous or (rank == previous and self.config.equal_policy == "reset")`
unfoldable pub resets : RankDescent → ℕ → ℕ → Bool
resets c previous rank = ltb previous rank || (rank == previous && is_reset c.equal_policy)

unfoldable pub begin_path : ℕ → ℕ → RankPath
begin_path rank time = record {
  previous_rank = rank;
  sequence_start_rank = rank;
  sequence_start_time = time;
  last_seen_time = time;
}

-- The path that a rank begins, if it is far enough down.
unfoldable pub try_begin : RankDescent → ℕ → ℕ → Option RankPath
unfolding begin_path
try_begin c rank time = if leb c.start_rank_at_least rank then some (begin_path rank time) else none

-- What `_advance` makes of a symbol's path and whether it selects the symbol.
unfoldable pub advance_path : RankDescent → Bool → ℕ → ℕ → Option RankPath → Option RankPath × Bool
unfolding try_begin resets
advance_path c emit rank time none = (try_begin c rank time, false)
advance_path c emit rank time (some p) =
    if resets c p.previous_rank rank
    then (try_begin c rank time, false)
    else if not (rank == c.entry_rank) || not emit
    then (some (record p { previous_rank = rank; last_seen_time = time }), false)
    else (none, true)

-- `self._state[symbol] = …` or `self._state.pop(symbol, None)`
unfoldable pub put_path : ℕ → Option RankPath → Dict RankPath → Dict RankPath
put_path symbol none d = erase symbol d
put_path symbol (some p) d = insert symbol p d

-- `{symbol: row for symbol, row in self._state.items() if symbol in seen}`
unfoldable pub keep_seen {ℓ} : {V : Type ℓ} → List ℕ → Dict V → Dict V
keep_seen seen d = filter_items (λ k _. any (λ x. k == x) seen) d

-- `self._last_time is not None and timestamp <= self._last_time`
unfoldable pub is_stale : Option ℕ → ℕ → Bool
is_stale none time = false
is_stale (some last) time = leb time last

abbrev pub is_descent : SelectionMode → Bool
is_descent SelectionMode.rank_descent = true
is_descent _ = false

same_policy : EqualPolicy → EqualPolicy → Bool
same_policy EqualPolicy.keep EqualPolicy.keep = true
same_policy EqualPolicy.reset EqualPolicy.reset = true
same_policy _ _ = false

-- `selection.descent != self.config`
same_descent : RankDescent → Option RankDescent → Bool
unfolding same_policy
same_descent c none = false
same_descent c (some x) =
    c.start_rank_at_least == x.start_rank_at_least
    && c.entry_rank == x.entry_rank
    && same_policy c.equal_policy x.equal_policy

end_of : Option PortfolioError → Exec PortfolioError Tracker Unit
end_of none s = (ok tt, s)
end_of (some e) s = (err e, s)

module _ {F : Type 0} where
  -- The pair of rows that one selection appends.
  unfoldable pub descent_rows : Clock → ℕ → RankRow F → Selected F × Diagnostic
  descent_rows clock time row = (
    record {
      signal_time = time;
      rank_source_time = some time;
      symbol = row.symbol;
      score = row.raw_score;
      side = Side.long;
      factor_version = row.factor_version;
      universe_version = row.universe_version;
      ordinal_rank = some row.ordinal_rank;
      sample_count = row.sample_count;
    },
    record {
      decision_time = time;
      rank_source_time = some time;
      rank_lag = 0;
      rank_clock = clock;
      symbol = some row.symbol;
      side = Side.long;
      requested_rank = row.ordinal_rank;
      sample_count = some row.sample_count;
      reason_code = ReasonCode.rank_descent_triggered;
    },
  )

  -- `_advance`
  unfoldable pub advance_row :
      RankDescent
      → Clock
      → Bool
      → ℕ
      → RankRow F
      → Dict RankPath
      → Dict RankPath × List (Selected F × Diagnostic)
  unfolding advance_path put_path descent_rows
  advance_row c clock emit time row d =
      let (path, selects) = advance_path c emit row.ordinal_rank time (lookup row.symbol d) in
      (put_path row.symbol path d, if selects then descent_rows clock time row ∷ [] else [])

  -- The row loop of `select`.
  unfoldable pub advance_rows :
      RankDescent
      → Clock
      → Bool
      → ℕ
      → List (RankRow F)
      → Dict RankPath
      → Dict RankPath × List (Selected F × Diagnostic)
  unfolding advance_row
  advance_rows c clock emit time [] d = (d, [])
  advance_rows c clock emit time (row ∷ rows) d =
      let (d1, first) = advance_row c clock emit time row d in
      let (d2, later) = advance_rows c clock emit time rows d1 in (d2, first ++ later)

  -- `snapshot["timestamp"][0]`; no snapshot is empty.
  abbrev pub time_of : List (RankRow F) → ℕ
  time_of [] = 0
  time_of (r ∷ rows) = r.timestamp

  -- One round of the snapshot loop of `select`.
  unfoldable pub take_snapshot :
      RankDescent
      → ℕ
      → Clock
      → List ℕ
      → List (RankRow F)
      → Exec PortfolioError Tracker (List (Selected F × Diagnostic))
  unfolding is_stale keep_seen advance_rows
  take_snapshot c limit clock decisions snapshot s =
      let time = time_of snapshot in
      let emit = any (λ t. time == t) decisions in
      let seen = keep_seen (map (λ r. r.symbol) snapshot) s.state in
      let (d, rows) = advance_rows c clock emit time snapshot seen in
      let t : Tracker = record { state = d; last_time = some time } in
      if is_stale s.last_time time
      then (err PortfolioError.not_advancing, s)
      else if ltb limit (length d)
      then (err PortfolioError.state_rows_exceeded, t)
      else (ok rows, t)

  unfoldable pub take_snapshots :
      RankDescent
      → ℕ
      → Clock
      → List ℕ
      → List (List (RankRow F))
      → Exec PortfolioError Tracker (List (Selected F × Diagnostic))
  take_snapshots c limit clock decisions [] = pure []
  take_snapshots c limit clock decisions (snapshot ∷ snapshots) = do
    first ← take_snapshot c limit clock decisions snapshot
    later ← take_snapshots c limit clock decisions snapshots
    pure (first ++ later)

  -- `select`, given the batches of the rankings and the decision times; the rows of both
  -- frames are sorted by time and symbol at its end.
  unfoldable pub select_descent :
      RankDescent
      → ℕ
      → RankSelection F
      → List ℕ
      → List (List (RankRow F))
      → Exec PortfolioError Tracker (List (Selected F) × List Diagnostic)
  unfolding same_descent end_of
  select_descent c limit selection decisions batches = do
    raise_if (not (is_descent selection.mode && same_descent c selection.descent))
        PortfolioError.config_mismatch
    rows ←
        take_snapshots c limit selection.clock decisions
          (iter_rank_snapshots limit false batches).snapshots
    end_of (iter_rank_snapshots limit false batches).failure
    pure (sort_selected (map (λ r. r.0) rows), sort_diagnostics (map (λ r. r.1) rows))

-- `max(row["last_seen_time"] for row in self._state.values())`
unfoldable pub latest : Dict RankPath → Option ℕ
latest [] = none
latest (e ∷ d) = elim (latest d) [
  | none ↦ some e.1.last_seen_time
  | some t ↦ some (if leb t e.1.last_seen_time then e.1.last_seen_time else t)
]

-- `{str(row["symbol"]): row for row in …}`
unfoldable pub path_dict : List (ℕ × RankPath) → Dict RankPath → Dict RankPath
path_dict [] d = d
path_dict (e ∷ rows) d = path_dict rows (insert e.0 e.1 d)

-- `RankDescentTracker.__init__`; a restored frame has its columns or not.
unfoldable pub create_tracker :
    ℕ → Option (Bool × List (ℕ × RankPath)) → Result PortfolioError Tracker
unfolding latest path_dict
create_tracker limit none =
    if ltb limit 1
    then err PortfolioError.bad_budget
    else ok (record { state = []; last_time = none })
create_tracker limit (some (has_columns, rows)) =
    if ltb limit 1
    then err PortfolioError.bad_budget
    else if not has_columns
    then err PortfolioError.missing_columns
    else if ltb limit (length rows)
    then err PortfolioError.state_rows_exceeded
    else if not (length (path_dict rows []) == length rows)
    then err PortfolioError.duplicate_symbols
    else ok (record { state = path_dict rows []; last_time = latest (path_dict rows []) })

-- `export_state`
unfoldable pub export_state : Tracker → List (ℕ × RankPath)
export_state s = sort s.state
