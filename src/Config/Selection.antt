-- ===== src/Config/Selection.antt =====
-- The selection rules of src/bfbt/config/backtest.py: RankSideConfig, RankDescentConfig,
-- FactorCrossoverConfig and RankSelectionConfig, with their validators. Every negative rank is
-- refused as 0 is, so ranks are naturals.
use bfbt.Base.{
  ℕ, Bool, true, false, not, ◌&&◌, ◌||◌, Option, List, [], ◌∷◌, ◌++◌, ◌==◌, ltb, leb, any, is_some,
  if◌then◌else◌,
}
use bfbt.Exec.{Result, ok, err}

pub record RankSide : Type 0 where
  pub ranks : List ℕ
  pub ranges : List (ℕ × ℕ)

pub data EqualPolicy : Type 0 where
  keep reset : EqualPolicy

pub record RankDescent : Type 0 where
  pub start_rank_at_least : ℕ
  pub entry_rank : ℕ
  pub equal_policy : EqualPolicy

pub record FactorCrossover (F : Type 0) : Type 0 where
  pub entry_threshold : F
  pub exit_threshold : F

pub data SelectionMode : Type 0 where
  rank_set rank_descent factor_crossover : SelectionMode

pub data Clock : Type 0 where
  factor rebalance : Clock

pub record RankSelection (F : Type 0) : Type 0 where
  pub mode : SelectionMode
  pub clock : Clock
  pub lag : ℕ
  pub long_side : RankSide
  pub short_side : RankSide
  pub descent : Option RankDescent
  pub crossover : Option (FactorCrossover F)

-- The `ValueError`s by their messages.
pub data SelectionError : Type 0 where
  rank_not_positive duplicate_ranks bad_range overlapping_ranges duplicate_coverage : SelectionError
  entry_not_below_start missing_descent descent_lag descent_sides descent_crossover : SelectionError
  missing_crossover crossover_clock crossover_lag crossover_descent crossover_sides : SelectionError
  unexpected_descent unexpected_crossover no_side overlapping_sides : SelectionError

-- `rank in ranks`
abbrev pub member : ℕ → List ℕ → Bool
member r = any (λ x. r == x)

-- `start <= rank <= end`
abbrev pub covers : ℕ → ℕ × ℕ → Bool
covers r e = leb e.0 r && leb r e.1

-- `RankSideConfig.contains`
unfoldable pub side_contains : RankSide → ℕ → Bool
side_contains side r = member r side.ranks || any (covers r) side.ranges

-- `RankSideConfig.is_empty`
unfoldable pub side_is_empty : RankSide → Bool
side_is_empty side = elim side.ranks [
  | [] ↦ elim side.ranges [ [] ↦ true | e ∷ es ↦ false ]
  | r ∷ rs ↦ false
]

-- `len(value) != len(set(value))`
unfoldable pub has_duplicate : List ℕ → Bool
has_duplicate [] = false
has_duplicate (r ∷ rs) = member r rs || has_duplicate rs

-- `RankSideConfig.validate_ranks`
unfoldable pub validate_ranks : List ℕ → Result SelectionError Unit
unfolding has_duplicate
validate_ranks rs =
    if any (λ r. ltb r 1) rs
    then err SelectionError.rank_not_positive
    else if has_duplicate rs
    then err SelectionError.duplicate_ranks
    else ok tt

-- `sorted(value)` of pairs.
unfoldable pub place_range : ℕ × ℕ → List (ℕ × ℕ) → List (ℕ × ℕ)
place_range e [] = e ∷ []
place_range e (x ∷ xs) =
    if ltb e.0 x.0 || (e.0 == x.0 && leb e.1 x.1) then e ∷ x ∷ xs else x ∷ place_range e xs

unfoldable pub sort_ranges : List (ℕ × ℕ) → List (ℕ × ℕ)
unfolding place_range
sort_ranges [] = []
sort_ranges (e ∷ es) = place_range e (sort_ranges es)

-- `any(current[0] <= previous[1] for previous, current in zip(ordered, ordered[1:]))`
unfoldable pub adjacent_overlap : List (ℕ × ℕ) → Bool
adjacent_overlap [] = false
adjacent_overlap (e ∷ []) = false
adjacent_overlap (e ∷ x ∷ xs) = leb x.0 e.1 || adjacent_overlap (x ∷ xs)

-- `RankSideConfig.validate_ranges`
unfoldable pub validate_ranges : List (ℕ × ℕ) → Result SelectionError Unit
unfolding sort_ranges adjacent_overlap
validate_ranges es =
    if any (λ e. ltb e.0 1 || ltb e.1 e.0) es
    then err SelectionError.bad_range
    else if adjacent_overlap (sort_ranges es)
    then err SelectionError.overlapping_ranges
    else ok tt

-- `RankSideConfig.validate_no_duplicate_coverage`
unfoldable pub validate_no_duplicate_coverage : RankSide → Result SelectionError Unit
validate_no_duplicate_coverage side =
    if any (λ r. any (covers r) side.ranges) side.ranks
    then err SelectionError.duplicate_coverage
    else ok tt

-- `RankDescentConfig.validate_path`
unfoldable pub validate_path : RankDescent → Result SelectionError Unit
validate_path c =
    if leb c.start_rank_at_least c.entry_rank
    then err SelectionError.entry_not_below_start
    else ok tt

-- `max(long_start, short_start) <= min(long_end, short_end)`
unfoldable pub ranges_meet : ℕ × ℕ → ℕ × ℕ → Bool
ranges_meet a b = leb (if leb a.0 b.0 then b.0 else a.0) (if leb a.1 b.1 then a.1 else b.1)

abbrev pub is_factor : Clock → Bool
is_factor Clock.factor = true
is_factor Clock.rebalance = false

-- The two loops at the end of `validate_sides`.
unfoldable pub sides_overlap : RankSide → RankSide → Bool
unfolding side_contains ranges_meet
sides_overlap long_side short_side =
    any (λ r. side_contains long_side r && side_contains short_side r)
      (long_side.ranks ++ short_side.ranks)
    || any (λ a. any (ranges_meet a) short_side.ranges) long_side.ranges

module _ {F : Type 0} where
  has_sides : RankSelection F → Bool
  unfolding side_is_empty
  has_sides c = not (side_is_empty c.long_side) || not (side_is_empty c.short_side)

  validate_descent_mode : RankSelection F → Result SelectionError Unit
  unfolding has_sides
  validate_descent_mode c =
      if not (is_some c.descent)
      then err SelectionError.missing_descent
      else if not (c.lag == 0)
      then err SelectionError.descent_lag
      else if has_sides c
      then err SelectionError.descent_sides
      else if is_some c.crossover
      then err SelectionError.descent_crossover
      else ok tt

  validate_crossover_mode : RankSelection F → Result SelectionError Unit
  unfolding has_sides
  validate_crossover_mode c =
      if not (is_some c.crossover)
      then err SelectionError.missing_crossover
      else if not (is_factor c.clock)
      then err SelectionError.crossover_clock
      else if not (c.lag == 0)
      then err SelectionError.crossover_lag
      else if is_some c.descent
      then err SelectionError.crossover_descent
      else if has_sides c
      then err SelectionError.crossover_sides
      else ok tt

  validate_set_mode : RankSelection F → Result SelectionError Unit
  unfolding side_is_empty sides_overlap
  validate_set_mode c =
      if is_some c.descent
      then err SelectionError.unexpected_descent
      else if is_some c.crossover
      then err SelectionError.unexpected_crossover
      else if side_is_empty c.long_side && side_is_empty c.short_side
      then err SelectionError.no_side
      else if sides_overlap c.long_side c.short_side
      then err SelectionError.overlapping_sides
      else ok tt

  -- `RankSelectionConfig.validate_sides`
  unfoldable pub validate_sides : RankSelection F → Result SelectionError Unit
  unfolding validate_descent_mode validate_crossover_mode validate_set_mode
  validate_sides c = elim c.mode [
    | SelectionMode.rank_descent ↦ validate_descent_mode c
    | SelectionMode.factor_crossover ↦ validate_crossover_mode c
    | SelectionMode.rank_set ↦ validate_set_mode c
  ]
