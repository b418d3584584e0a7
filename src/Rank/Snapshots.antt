-- ===== src/Rank/Snapshots.antt =====
-- `iter_rank_snapshots` of src/bfbt/portfolio/history.py: complete snapshots from streamed
-- batches. The generator is the list of what it yields and the error that ends it, if one does.
use bfbt.Base.{
  ℕ, Bool, ◌&&◌, Option, none, some, List, [], ◌∷◌, ◌++◌, ◌==◌, ltb, any, filter, length, map,
  if◌then◌else◌,
}
use bfbt.Rank.Row.{RankRow, PortfolioError, sort_ranks}

-- What the generator has yielded, and how it ended.
pub record Yielded (F : Type 0) : Type 0 where
  pub snapshots : List (List (RankRow F))
  pub failure : Option PortfolioError

-- `times[:-1]` and `times[-1]` of a list of at least one time.
unfoldable pub all_but_last : ℕ → List ℕ → List ℕ
all_but_last t [] = []
all_but_last t (u ∷ us) = t ∷ all_but_last u us

unfoldable pub last_of : ℕ → List ℕ → ℕ
last_of t [] = t
last_of t (u ∷ us) = last_of u us

module _ {F : Type 0} where
  -- `filter(pl.col("timestamp") == timestamp)`
  abbrev pub at_time : ℕ → List (RankRow F) → List (RankRow F)
  at_time t = filter (λ r. r.timestamp == t)

  -- `unique(maintain_order=True)`: every time at its first row, none of which is in `seen`.
  unfoldable pub times_from : List ℕ → List (RankRow F) → List ℕ
  times_from seen [] = []
  times_from seen (r ∷ rows) =
      let known = times_from seen rows in
      let found = times_from (r.timestamp ∷ seen) rows in
      if any (λ t. r.timestamp == t) seen then known else r.timestamp ∷ found

  prepend : List (List (RankRow F)) → Yielded F → Yielded F
  prepend xs y = record y { snapshots = xs ++ y.snapshots }

  -- The snapshots of the times that a later time follows, and the rows kept for the next batch.
  unfoldable pub split_merged :
      List (RankRow F) → List ℕ → List (List (RankRow F)) × List (RankRow F)
  unfolding all_but_last last_of
  split_merged merged [] = ([], merged)
  split_merged merged (t ∷ []) = ([], merged)
  split_merged merged (t ∷ u ∷ us) = (
    map (λ x. sort_ranks (at_time x merged)) (all_but_last t (u ∷ us)),
    at_time (last_of t (u ∷ us)) merged,
  )

  -- The batches after the rows `pending`; an empty `pending` is None, since no batch is kept empty.
  unfoldable pub snapshots_after : ℕ → Bool → List (RankRow F) → List (List (RankRow F)) → Yielded F
  unfolding split_merged times_from prepend
  snapshots_after limit retain [] [] = record { snapshots = []; failure = none }
  snapshots_after limit retain (r ∷ rows) [] = record {
    snapshots = sort_ranks (r ∷ rows) ∷ [];
    failure = none;
  }
  snapshots_after limit retain pending ([] ∷ batches) = snapshots_after limit retain pending batches
  snapshots_after limit retain pending ((b ∷ bs) ∷ batches) =
      let merged = pending ++ (b ∷ bs) in
      let (done, kept) = split_merged merged (times_from [] merged) in
      let rest = snapshots_after limit retain kept batches in
      if retain && ltb limit (length kept)
      then record { snapshots = done; failure = some PortfolioError.snapshot_rows_exceeded }
      else prepend done rest

  -- `iter_rank_snapshots`, given the batches that polars collects.
  abbrev pub iter_rank_snapshots : ℕ → Bool → List (List (RankRow F)) → Yielded F
  iter_rank_snapshots limit retain batches = snapshots_after limit retain [] batches
