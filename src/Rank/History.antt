-- ===== src/Rank/History.antt =====
-- RankHistoryBuffer of src/bfbt/portfolio/history.py: the previous `lag` snapshots, and the
-- selection of requested ranks from the snapshot `lag` steps back. A lag is a natural, so the
-- test for a negative one is gone.
use bfbt.Base.{
  ℕ, zero, suc, ◌+◌, ◌-◌, Bool, true, false, not, ◌&&◌, ◌||◌, Option, none, some, List, [], ◌∷◌,
  ◌++◌, map, reverse, ltb, leb, ◌==◌, if◌then◌else◌, length, filter, any, all, sort_by,
}
use bfbt.Config.Selection.{RankSide, RankSelection, Clock}
use bfbt.Contracts.{ReasonCode}
use bfbt.Exec.{Result, ok, err, Result, Exec, pure, gets, ◌>>=◌, ◌>>◌, raise_if}
use bfbt.Rank.Row.{
  RankRow, Side, Selected, Diagnostic, PortfolioError, rank_before, sort_ranks, sort_selected,
  sort_decisions,
}
use bfbt.Rank.Snapshots.{iter_rank_snapshots}
use bfbt.Rank.Descent.{time_of}

-- `set.add` on the sorted values of the set.
unfoldable pub put_rank : ℕ → List ℕ → List ℕ
put_rank r [] = r ∷ []
put_rank r (x ∷ xs) = if ltb r x then r ∷ x ∷ xs else if r == x then x ∷ xs else x ∷ put_rank r xs

unfoldable pub put_ranks : List ℕ → List ℕ → List ℕ
put_ranks [] values = values
put_ranks (r ∷ rs) values = put_rank r (put_ranks rs values)

-- `values.update(range(start, start + count))`
unfoldable pub put_range : ℕ → ℕ → List ℕ → List ℕ
put_range start zero values = values
put_range start (suc count) values = put_rank start (put_range (start + 1) count values)

unfoldable pub put_ranges : List (ℕ × ℕ) → List ℕ → List ℕ
unfolding put_range
put_ranges [] values = values
put_ranges (e ∷ es) values = put_range e.0 (e.1 + 1 - e.0) (put_ranges es values)

-- `_requested`
unfoldable pub requested : RankSide → List ℕ
requested side = put_ranges side.ranges (put_ranks side.ranks [])

unfoldable pub take {ℓ} : {A : Type ℓ} → ℕ → List A → List A
take zero xs = []
take (suc n) [] = []
take (suc n) (x ∷ xs) = x ∷ take n xs

unfoldable pub get_elem? {ℓ} : {A : Type ℓ} → List A → ℕ → Option A
get_elem? [] n = none
get_elem? (x ∷ xs) zero = some x
get_elem? (x ∷ xs) (suc n) = get_elem? xs n

-- `xs[-n:]` of a positive n.
unfoldable pub last_items {ℓ} : {A : Type ℓ} → ℕ → List A → List A
unfolding take
last_items n xs = reverse (take n (reverse xs))

selected_reason : ℕ → ReasonCode
selected_reason zero = ReasonCode.selected_current_rank
selected_reason (suc n) = ReasonCode.selected_historical_rank

-- `current <= previous`
unfoldable pub not_after : Option ℕ → ℕ → Bool
not_after none time = false
not_after (some previous) time = leb time previous

abbrev same_clock : Clock → Clock → Bool
same_clock Clock.factor Clock.factor = true
same_clock Clock.rebalance Clock.rebalance = true
same_clock _ _ = false

module _ {F : Type 0} where
  -- `_requests`
  unfoldable pub requests_of : RankSelection F → List (Side × ℕ)
  requests_of c =
      map (λ r. (Side.long, r)) (requested c.long_side)
      ++ map (λ r. (Side.short, r)) (requested c.short_side)

  -- `source.filter(pl.col("ordinal_rank") == rank)` and its first row.
  unfoldable pub row_at_rank : ℕ → List (RankRow F) → Option (RankRow F)
  row_at_rank rank [] = none
  row_at_rank rank (r ∷ rows) = if r.ordinal_rank == rank then some r else row_at_rank rank rows

  -- `symbol in set(current["symbol"].to_list())`
  abbrev pub is_eligible : ℕ → List (RankRow F) → Bool
  is_eligible symbol current = any (λ r. symbol == r.symbol) current

  -- `source["sample_count"][0]`; no snapshot is empty.
  abbrev pub samples_of : List (RankRow F) → ℕ
  samples_of [] = 0
  samples_of (r ∷ rows) = r.sample_count

  -- `_diagnostic`
  unfoldable pub diagnostic :
      RankSelection F → ℕ → Option ℕ → Option ℕ → Side × ℕ → Option ℕ → ReasonCode → Diagnostic
  diagnostic c time source_time symbol request samples reason = record {
    decision_time = time;
    rank_source_time = source_time;
    rank_lag = c.lag;
    rank_clock = c.clock;
    symbol = symbol;
    side = request.0;
    requested_rank = request.1;
    sample_count = samples;
    reason_code = reason;
  }

  -- One request of `_decide` that has a source.
  unfoldable pub answer :
      RankSelection F
      → ℕ
      → List (RankRow F)
      → List (RankRow F)
      → Side × ℕ
      → List (Selected F) × Diagnostic
  unfolding selected_reason
  answer c time current source request = elim (row_at_rank request.1 source) [
    | none ↦ (
      [],
      diagnostic c time (some (time_of source)) none request (some (samples_of source))
          ReasonCode.rank_out_of_range,
    )
    | some row ↦
        if not (is_eligible row.symbol current)
        then (
          [],
          diagnostic c time (some (time_of source)) (some row.symbol) request
              (some (samples_of source)) ReasonCode.historical_rank_not_currently_eligible,
        )
        else (
          record {
            signal_time = time;
            rank_source_time = some (time_of source);
            symbol = row.symbol;
            score = row.raw_score;
            side = request.0;
            factor_version = row.factor_version;
            universe_version = row.universe_version;
            ordinal_rank = some request.1;
            sample_count = samples_of source;
          }
              ∷ [],
          diagnostic c time (some (time_of source)) (some row.symbol) request
              (some (samples_of source)) (selected_reason c.lag),
        )
  ]

  unfoldable pub answers :
      RankSelection F
      → ℕ
      → List (RankRow F)
      → List (RankRow F)
      → List (Side × ℕ)
      → List (Selected F) × List Diagnostic
  unfolding answer
  answers c time current source [] = ([], [])
  answers c time current source (q ∷ qs) =
      let (chosen, why) = answer c time current source q in
      let (more, whys) = answers c time current source qs in (chosen ++ more, why ∷ whys)

  unfoldable pub unanswered : RankSelection F → ℕ → List (Side × ℕ) → List Diagnostic
  unanswered c time qs =
      map (λ q. diagnostic c time none none q none ReasonCode.insufficient_rank_history) qs

  -- `_decide`
  unfoldable pub decide :
      RankSelection F
      → ℕ
      → List (RankRow F)
      → Option (List (RankRow F))
      → List (Side × ℕ)
      → List (Selected F) × List Diagnostic
  unfolding unanswered
  decide c time current none qs = ([], unanswered c time qs)
  decide c time current (some source) qs = answers c time current source qs

  unfoldable pub total_rows : List (List (RankRow F)) → ℕ
  total_rows [] = 0
  total_rows (s ∷ snapshots) = length s + total_rows snapshots

  -- `self._snapshots[-1]["timestamp"][0]`, where there is one.
  unfoldable pub last_time_of : List (List (RankRow F)) → Option ℕ
  last_time_of snapshots = elim (reverse snapshots) [ [] ↦ none | s ∷ ss ↦ some (time_of s) ]

  -- `_remember`
  unfoldable pub remember :
      ℕ → ℕ → List (RankRow F) → Exec PortfolioError (List (List (RankRow F))) Unit
  unfolding last_items total_rows last_time_of not_after
  remember zero limit snapshot s = (ok tt, [])
  remember (suc n) limit snapshot s =
      let candidate = last_items (suc n) (s ++ (snapshot ∷ [])) in
      if ltb limit (total_rows candidate)
      then (err PortfolioError.state_rows_exceeded, s)
      else if not_after (last_time_of s) (time_of snapshot)
      then (err PortfolioError.not_advancing, s)
      else (ok tt, candidate)

  -- The source of a decision: the current snapshot without a lag, and `self._snapshots[-lag]` with
  -- one, where there are so many.
  unfoldable pub source_of :
      ℕ → List (RankRow F) → List (List (RankRow F)) → Option (List (RankRow F))
  source_of zero current snapshots = some current
  source_of (suc n) current snapshots =
      if leb (suc n) (length snapshots) then get_elem? (reverse snapshots) n else none

  -- One round of the loop of `select`.
  unfoldable pub consume :
      RankSelection F
      → ℕ
      → List ℕ
      → List (RankRow F)
      → Exec PortfolioError (List (List (RankRow F))) (List (Selected F) × List Diagnostic)
  unfolding decide source_of remember
  consume c limit decisions current = do
    snapshots ← gets (λ s. s)
    remember c.lag limit current
    pure (
        if any (λ t. time_of current == t) decisions
        then decide c (time_of current) current (source_of c.lag current snapshots) (requests_of c)
        else ([], []))

  unfoldable pub consume_all :
      RankSelection F
      → ℕ
      → List ℕ
      → List (List (RankRow F))
      → Exec PortfolioError (List (List (RankRow F))) (List (Selected F) × List Diagnostic)
  consume_all c limit decisions [] = pure ([], [])
  consume_all c limit decisions (current ∷ snapshots) = do
    first ← consume c limit decisions current
    later ← consume_all c limit decisions snapshots
    pure (first.0 ++ later.0, first.1 ++ later.1)

  -- `clocks != [selection.clock]`
  has_clock : Clock → List (RankRow F) → Bool
  has_clock clock snapshot = all (λ r. same_clock clock r.rank_clock) snapshot

  -- The decision times without a snapshot: `decisions - seen_decisions`, sorted.
  missed : List ℕ → List (List (RankRow F)) → List ℕ
  missed decisions snapshots =
      filter (λ t. not (any (λ s. time_of s == t) snapshots)) (put_ranks decisions [])

  missed_rows : RankSelection F → List ℕ → List Diagnostic
  missed_rows c [] = []
  missed_rows c (t ∷ ts) = unanswered c t (requests_of c) ++ missed_rows c ts

  end_with : Option PortfolioError → Exec PortfolioError (List (List (RankRow F))) Unit
  end_with none s = (ok tt, s)
  end_with (some e) s = (err e, s)

  -- `select`, given the batches of the rankings and the decision times.
  unfoldable pub select_history :
      RankSelection F
      → ℕ
      → ℕ
      → List ℕ
      → List (List (RankRow F))
      → Exec PortfolioError (List (List (RankRow F))) (List (Selected F) × List Diagnostic)
  unfolding has_clock missed missed_rows end_with
  select_history c lag limit decisions batches = do
    raise_if (not (c.lag == lag)) PortfolioError.lag_mismatch
    restored ← gets (λ s. s)
    raise_if (not (all (has_clock c.clock) restored)) PortfolioError.clock_mismatch
    rows ← consume_all c limit decisions (iter_rank_snapshots limit (ltb 0 lag) batches).snapshots
    end_with (iter_rank_snapshots limit (ltb 0 lag) batches).failure
    pure (
      sort_selected rows.0,
      sort_decisions (
          rows.1
          ++ missed_rows c
              (missed decisions (iter_rank_snapshots limit (ltb 0 lag) batches).snapshots)),
    )

module _ {F : Type 0} where
  -- `sort(["timestamp", "ordinal_rank", "symbol"])`
  frame_before : RankRow F → RankRow F → Bool
  frame_before a b = ltb a.timestamp b.timestamp || (a.timestamp == b.timestamp && rank_before a b)

  -- `partition_by("timestamp", maintain_order=True)` of sorted rows.
  unfoldable pub partition_rows : List (RankRow F) → List (List (RankRow F))
  partition_rows [] = []
  partition_rows (r ∷ rows) =
      let parts = partition_rows rows in
      elim parts [
        | [] ↦ (r ∷ []) ∷ []
        | s ∷ ss ↦ if r.timestamp == time_of s then (r ∷ s) ∷ ss else (r ∷ []) ∷ s ∷ ss
      ]

  -- `_split_snapshots`
  unfoldable pub split_snapshots : List (RankRow F) → List (List (RankRow F))
  unfolding frame_before partition_rows
  split_snapshots rows = map sort_ranks (partition_rows (sort_by frame_before rows))

  -- `RankHistoryBuffer.__init__`, given the rows of the restored frame.
  unfoldable pub create_buffer :
      ℕ → ℕ → ℕ → List (RankRow F) → Result PortfolioError (List (List (RankRow F)))
  unfolding split_snapshots total_rows
  create_buffer lag max_rank_lag limit rows =
      let snapshots = split_snapshots rows in
      if ltb max_rank_lag lag
      then err PortfolioError.lag_exceeded
      else if ltb limit 1
      then err PortfolioError.bad_budget
      else if ltb lag (length snapshots)
      then err PortfolioError.too_many_snapshots
      else if ltb limit (total_rows snapshots)
      then err PortfolioError.state_rows_exceeded
      else ok snapshots

  -- `RankHistoryBuffer.export_state`
  unfoldable pub export_snapshots : List (List (RankRow F)) → List (RankRow F)
  export_snapshots [] = []
  export_snapshots (s ∷ snapshots) = s ++ export_snapshots snapshots
