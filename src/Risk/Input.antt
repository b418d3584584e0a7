-- ===== src/Risk/Input.antt =====
-- `_bars` and `_position_rows`: the input frames are checked and turned into dicts by symbol.
use bfbt.Base.{
  ℕ, ◌+◌, ◌*◌, Bool, false, not, ◌&&◌, ◌||◌, Option, none, some, List, [], ◌∷◌, ◌==◌, leb, all,
  if◌then◌else◌,
}
use bfbt.Dict.{Dict, contains, insert}
use bfbt.Exec.{Result, ok, err}
use bfbt.Float.{Float, fmax, fmin}
use bfbt.Risk.State.{
  Direction, RiskError, Machine, Frame, BarRow, PositionInput, PositionRow, Snapshot,
}

-- `opened_at != last_close_time`, where there is one.
unfoldable pub is_gap : Option ℕ → ℕ → Bool
is_gap none opened = false
is_gap (some last) opened = not (opened == last)

module _ {F : Type 0} ⦃f : Float F⦄ where
  -- `frame.sort("symbol")`, stable.
  unfoldable pub place_bar : BarRow F → List (BarRow F) → List (BarRow F)
  place_bar b [] = b ∷ []
  place_bar b (c ∷ bs) = if leb b.symbol c.symbol then b ∷ c ∷ bs else c ∷ place_bar b bs

  unfoldable pub sort_bars : List (BarRow F) → List (BarRow F)
  unfolding place_bar
  sort_bars [] = []
  sort_bars (b ∷ bs) = place_bar b (sort_bars bs)

  -- A price that `float()` gives must be finite and positive.
  unfoldable pub is_price : F → Bool
  is_price x = f.is_finite x && not (f.le x f.nought)

  unfoldable pub has_prices : BarRow F → Bool
  unfolding is_price
  has_prices b =
      is_price b.open_price && is_price b.high && is_price b.low && is_price b.close_price

  -- `prices[1] < max(prices[0], prices[3]) or prices[2] > min(prices[0], prices[3])`
  unfoldable pub is_inconsistent : BarRow F → Bool
  is_inconsistent b =
      f.lt b.high (fmax b.open_price b.close_price) || f.lt (fmin b.open_price b.close_price) b.low

  -- The tests of one row of `_bars`; `seen` are the rows before it.
  unfoldable pub check_bar : Dict (BarRow F) → BarRow F → Option RiskError
  unfolding has_prices is_inconsistent
  check_bar seen b =
      if contains b.symbol seen
      then some RiskError.duplicate_bars
      else if not b.is_complete
      then some RiskError.incomplete_bar
      else if not (has_prices b)
      then some RiskError.invalid_prices
      else if is_inconsistent b
      then some RiskError.inconsistent_ohlc
      else none

  -- The row loop of `_bars`.
  unfoldable pub collect_bars :
      Dict (BarRow F) → List (BarRow F) → Result RiskError (Dict (BarRow F))
  unfolding check_bar
  collect_bars seen [] = ok seen
  collect_bars seen (b ∷ bs) =
      let rest = collect_bars (insert b.symbol b seen) bs in
      elim (check_bar seen b) [ some e ↦ err e | none ↦ rest ]

  -- One open time and one close time in all rows.
  unfoldable pub share_times : ℕ → ℕ → List (BarRow F) → Bool
  share_times opened closed = all (λ b. b.open_time == opened && b.close_time == closed)

  -- The tests of `_bars` on the times, at the first row's times, and its row loop.
  unfoldable pub read_rows : Machine F → Option ℕ → List (BarRow F) → Result RiskError (Snapshot F)
  unfolding collect_bars share_times is_gap
  read_rows m last [] = err RiskError.mixed_bar_times
  read_rows m last (b ∷ bs) =
      if not (share_times b.open_time b.close_time bs)
      then err RiskError.mixed_bar_times
      else if not (b.close_time == b.open_time + m.config.interval_seconds * 1000)
      then err RiskError.wrong_bar_duration
      else if is_gap last b.open_time
      then err RiskError.bars_not_contiguous
      else elim (collect_bars [] (b ∷ bs)) [
        | ok d ↦ ok (record { bars = d; opened_at = b.open_time; closed_at = b.close_time })
        | err e ↦ err e
      ]

  -- `_bars`
  unfoldable pub read_bars : Machine F → Frame (BarRow F) → Option ℕ → Result RiskError (Snapshot F)
  unfolding read_rows sort_bars
  read_bars m frame last =
      if not frame.has_columns
      then err RiskError.missing_bar_columns
      else read_rows m last (sort_bars frame.rows)

  unfoldable pub to_row : PositionInput F → PositionRow F
  to_row p = record {
    quantity = p.quantity;
    average_entry_price = p.average_entry_price;
    direction = if f.lt f.nought p.quantity then Direction.long else Direction.short;
  }

  -- The row loop of `_position_rows`. A row of no quantity is skipped, after the test for duplicates.
  unfoldable pub collect_positions :
      Dict (PositionRow F) → List (PositionInput F) → Result RiskError (Dict (PositionRow F))
  unfolding to_row
  collect_positions seen [] = ok seen
  collect_positions seen (p ∷ ps) =
      let skipped = collect_positions seen ps in
      let taken = collect_positions (insert p.symbol (to_row p) seen) ps in
      if contains p.symbol seen
      then err RiskError.duplicate_positions
      else if f.le (f.abs p.quantity) f.epsilon
      then skipped
      else if not (f.is_finite p.quantity)
          || not (f.is_finite p.average_entry_price)
          || f.le p.average_entry_price f.nought
      then err RiskError.invalid_position
      else taken

  -- `_position_rows`
  unfoldable pub position_rows : Frame (PositionInput F) → Result RiskError (Dict (PositionRow F))
  unfolding collect_positions
  position_rows frame =
      if not frame.has_columns
      then err RiskError.missing_position_columns
      else collect_positions [] frame.rows
