-- ===== src/Rank/Row.antt =====
-- The rows that src/bfbt/portfolio/history.py and crossover.py read and write.
use bfbt.Base.{
  ℕ, Bool, true, false, ◌&&◌, ◌||◌, Option, none, some, List, ◌==◌, ltb, leb, sort_by, not,
  if◌then◌else◌,
}
use bfbt.Config.Selection.{Clock}
use bfbt.Contracts.{ReasonCode}

-- A row of the rankings (`_STATE_SCHEMA`). Versions and run ids are only passed on.
pub record RankRow (F : Type 0) : Type 0 where
  pub timestamp : ℕ
  pub rank_clock : Clock
  pub symbol : ℕ
  pub raw_score : F
  pub ordinal_rank : ℕ
  pub sample_count : ℕ
  pub factor_version : ℕ
  pub universe_version : ℕ

-- The sides that a selection writes: "LONG", "SHORT" and "FLAT".
pub data Side : Type 0 where
  long short flat : Side

-- A row of `_SELECTED_SCHEMA`; `timestamp` and `signal_time` are one time.
pub record Selected (F : Type 0) : Type 0 where
  pub signal_time : ℕ
  pub rank_source_time : Option ℕ
  pub symbol : ℕ
  pub score : F
  pub side : Side
  pub factor_version : ℕ
  pub universe_version : ℕ
  pub ordinal_rank : Option ℕ
  pub sample_count : ℕ

-- A row of `_DIAGNOSTIC_SCHEMA`; `timestamp` and `decision_time` are one time.
pub record Diagnostic : Type 0 where
  pub decision_time : ℕ
  pub rank_source_time : Option ℕ
  pub rank_lag : ℕ
  pub rank_clock : Clock
  pub symbol : Option ℕ
  pub side : Side
  pub requested_rank : ℕ
  pub sample_count : Option ℕ
  pub reason_code : ReasonCode

-- `PortfolioError` by its message and `RankStateBudgetExceeded` by its limit.
pub data PortfolioError : Type 0 where
  bad_budget missing_columns state_rows_exceeded duplicate_symbols : PortfolioError
  config_mismatch not_advancing snapshot_rows_exceeded : PortfolioError
  negative_lag lag_exceeded too_many_snapshots lag_mismatch clock_mismatch : PortfolioError

module _ {F : Type 0} where
  -- `sort(["ordinal_rank", "symbol"])`
  unfoldable pub rank_before : RankRow F → RankRow F → Bool
  rank_before a b =
      ltb a.ordinal_rank b.ordinal_rank
      || (a.ordinal_rank == b.ordinal_rank && leb a.symbol b.symbol)

  unfoldable pub sort_ranks : List (RankRow F) → List (RankRow F)
  unfolding rank_before
  sort_ranks rows = sort_by rank_before rows

  -- `selected.sort(["signal_time", "symbol"])`
  selected_before : Selected F → Selected F → Bool
  selected_before a b =
      ltb a.signal_time b.signal_time || (a.signal_time == b.signal_time && leb a.symbol b.symbol)

  unfoldable pub sort_selected : List (Selected F) → List (Selected F)
  unfolding selected_before
  sort_selected rows = sort_by selected_before rows

-- Polars sorts null before every symbol.
unfoldable pub symbol_before : Option ℕ → Option ℕ → Bool
symbol_before none b = true
symbol_before (some a) none = false
symbol_before (some a) (some b) = leb a b

-- `diagnostics.sort(["decision_time", "symbol"])`
diagnostic_before : Diagnostic → Diagnostic → Bool
unfolding symbol_before
diagnostic_before a b =
    ltb a.decision_time b.decision_time
    || (a.decision_time == b.decision_time && symbol_before a.symbol b.symbol)

unfoldable pub sort_diagnostics : List Diagnostic → List Diagnostic
unfolding diagnostic_before
sort_diagnostics rows = sort_by diagnostic_before rows

-- "LONG" is sorted before "SHORT".
side_order : Side → ℕ
side_order Side.flat = 0
side_order Side.long = 1
side_order Side.short = 2

-- `diagnostics.sort(["decision_time", "side", "requested_rank", "symbol"])`
decision_before : Diagnostic → Diagnostic → Bool
unfolding side_order symbol_before
decision_before a b =
    if not (a.decision_time == b.decision_time)
    then ltb a.decision_time b.decision_time
    else if not (side_order a.side == side_order b.side)
    then ltb (side_order a.side) (side_order b.side)
    else if not (a.requested_rank == b.requested_rank)
    then ltb a.requested_rank b.requested_rank
    else symbol_before a.symbol b.symbol

unfoldable pub sort_decisions : List Diagnostic → List Diagnostic
unfolding decision_before
sort_decisions rows = sort_by decision_before rows
