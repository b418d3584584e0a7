-- ===== src/Rank/Requested.antt =====
-- `_requested` expands a side to the ranks that its `contains` accepts.
use bfbt.Base.{
  ℕ, zero, suc, ◌+◌, ◌-◌, ◌≡◌, refl, ◌&&◌, ◌||◌, List, [], ◌∷◌, arith, ltb, leb, ◌==◌, any,
}
use bfbt.Config.Selection.{RankSide, member, covers, side_contains}
use bfbt.Rank.History.{put_rank, put_ranks, put_range, put_ranges, requested}

member-put_rank : (y r : ℕ) (xs : List ℕ) → member y (put_rank r xs) ≡ ((y == r) || member y xs)
unfolding put_rank
member-put_rank y r [] = refl
member-put_rank y r (x ∷ xs) = ground (arith, member-put_rank y r xs)

member-put_ranks :
    (y : ℕ) (rs xs : List ℕ) → member y (put_ranks rs xs) ≡ (member y rs || member y xs)
unfolding put_ranks
member-put_ranks y [] xs = refl
member-put_ranks y (r ∷ rs) xs =
    ground (arith, member-put_rank y r (put_ranks rs xs), member-put_ranks y rs xs)

member-put_range :
    (y start count : ℕ) (xs : List ℕ)
    → member y (put_range start count xs) ≡ ((leb start y && ltb y (start + count)) || member y xs)
unfolding put_range
member-put_range y start zero xs = ground arith
member-put_range y start (suc count) xs = ground (
  arith,
  member-put_rank y start (put_range (start + 1) count xs),
  member-put_range y (start + 1) count xs,
)

member-put_ranges :
    (y : ℕ) (es : List (ℕ × ℕ)) (xs : List ℕ)
    → member y (put_ranges es xs) ≡ (any (covers y) es || member y xs)
unfolding put_ranges
member-put_ranges y [] xs = refl
member-put_ranges y (e ∷ es) xs =
    ground
      (arith, member-put_range y e.0 (e.1 + 1 - e.0) (put_ranges es xs), member-put_ranges y es xs)

-- The ranks that `_requested` lists for a side are exactly those that its `contains` accepts.
pub member-requested : (side : RankSide) (r : ℕ) → member r (requested side) ≡ side_contains side r
unfolding requested side_contains
member-requested side r = ground (
  arith,
  member-put_ranges r side.ranges (put_ranks side.ranks []),
  member-put_ranks r side.ranks [],
)
