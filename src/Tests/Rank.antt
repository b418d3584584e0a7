-- ===== src/Tests/Rank.antt =====
-- Runs of the rank selections on three snapshots.
use bfbt.Base.{false, ◌&&◌, ℕ, ◌≤◌, ◌<◌, ◌≡◌, refl, true, none, some, List, [], ◌∷◌, map}
use bfbt.Config.Selection.{
  validate_sides, side_contains, member, FactorCrossover, RankSide, EqualPolicy, RankDescent,
  SelectionMode, Clock, RankSelection, validate_path,
}
use bfbt.Dict.{sort, insert, filter_items, lookup}
use bfbt.Exec.{ok}
use bfbt.Rank.Row.{RankRow, Side, Selected, Diagnostic}
use bfbt.Rank.Descent.{
  is_stale, keep_seen, create_tracker, export_state, RankPath, Tracker, take_snapshot,
}
use bfbt.Rank.Refine.{rank_in, IsDistinct, is_selected, symbol_step}
use bfbt.Rank.Taken.{decides, take_snapshot_refines}
use bfbt.Rank.Trace.{Descends, Consumed, Consumed-IsUnique, Consumed-Descends, selected-Descends}
use bfbt.Rank.History.{requested, get_elem?, requests_of, decide, consume}
use bfbt.Rank.Lag
use bfbt.Rank.Crossover.{Scored, CrossTracker, crossing, take_scores}
use bfbt.Rank.Adjacent.{score_in, HasOneScore, side_of}
use bfbt.Rank.Crossing.{adjacent_crossing, Followed, take_scores_crosses}
use bfbt.Config.Disjoint.{validate_sides-disjoint}
use bfbt.Rank.Requested.{member-requested}
use bfbt.Tests.Fixed.{fixed_float, Fixed, plus}

abbrev ranked : ℕ → ℕ → ℕ → RankRow Fixed
ranked time symbol rank = record {
  timestamp = time;
  rank_clock = Clock.factor;
  symbol = symbol;
  raw_score = plus 100;
  ordinal_rank = rank;
  sample_count = 4;
  factor_version = 1;
  universe_version = 1;
}

-- Symbol 5 goes from rank 3 by rank 2 to rank 1.
abbrev first_snapshot : List (RankRow Fixed)
first_snapshot = ranked 10 6 1 ∷ ranked 10 5 3 ∷ []

abbrev second_snapshot : List (RankRow Fixed)
second_snapshot = ranked 20 6 1 ∷ ranked 20 5 2 ∷ []

abbrev third_snapshot : List (RankRow Fixed)
third_snapshot = ranked 30 5 1 ∷ ranked 30 6 2 ∷ []

abbrev descent : RankDescent
descent = record { start_rank_at_least = 3; entry_rank = 1; equal_policy = EqualPolicy.keep }

abbrev at_thirty : List ℕ
at_thirty = 30 ∷ []

abbrev empty_tracker : Tracker
empty_tracker = record { state = []; last_time = none }

abbrev after_first : Tracker
after_first = (take_snapshot descent 10 Clock.factor at_thirty first_snapshot empty_tracker).1

abbrev after_second : Tracker
after_second = (take_snapshot descent 10 Clock.factor at_thirty second_snapshot after_first).1

abbrev after_third : Tracker
after_third = (take_snapshot descent 10 Clock.factor at_thirty third_snapshot after_second).1

abbrev Takes : List (RankRow Fixed) → Tracker → Tracker → Type 0
Takes snapshot s t =
    (rows : List (Selected Fixed × Diagnostic)) × (take_snapshot descent 10 Clock.factor at_thirty
        snapshot s
      ≡ (ok rows, t))

Takes-first : Takes first_snapshot empty_tracker after_first
unfolding take_snapshot lookup filter_items insert
Takes-first = (_, refl)

Takes-second : Takes second_snapshot after_first after_second
unfolding take_snapshot lookup filter_items insert
Takes-second = (_, refl)

Takes-third :
    (rows : List (Selected Fixed × Diagnostic)) × (take_snapshot descent 10 Clock.factor at_thirty
        third_snapshot after_second
      ≡ (ok rows, after_third))
    × (is_selected 5 rows ≡ true)
unfolding take_snapshot lookup filter_items insert is_selected
Takes-third = (_, refl, refl)

first-IsDistinct : IsDistinct first_snapshot
unfolding rank_in
first-IsDistinct = (refl, (refl, tt))

second-IsDistinct : IsDistinct second_snapshot
unfolding rank_in
second-IsDistinct = (refl, (refl, tt))

third-IsDistinct : IsDistinct third_snapshot
unfolding rank_in
third-IsDistinct = (refl, (refl, tt))

path_valid : validate_path descent ≡ ok tt
unfolding validate_path
path_valid = refl

second-Consumed :
    Consumed descent 10 Clock.factor at_thirty (second_snapshot ∷ first_snapshot ∷ []) after_second
second-Consumed =
    Consumed.took second_snapshot (first_snapshot ∷ []) after_first after_second Takes-second.0
      (Consumed.took first_snapshot [] empty_tracker after_first Takes-first.0 Consumed.unused
        first-IsDistinct Takes-first.1)
      second-IsDistinct Takes-second.1

held_path : (q : RankPath) × (lookup 5 after_second.state ≡ some q)
unfolding take_snapshot lookup filter_items insert
held_path = (_, refl)

Consumed-Descends_example : Descends descent 5 (second_snapshot ∷ first_snapshot ∷ []) held_path.0
Consumed-Descends_example =
    Consumed-Descends descent 10 Clock.factor at_thirty 5 second-Consumed held_path.1

selected-Descends_example :
    (decides at_thirty third_snapshot ≡ true)
    × (rank_in 5 third_snapshot ≡ some 1)
    × ((q : RankPath) × Descends descent 5
          (third_snapshot ∷ second_snapshot ∷ first_snapshot ∷ [])
          q
        × (q.previous_rank ≡ 1)
        × (3 ≤ q.sequence_start_rank)
        × (1 < q.sequence_start_rank))
selected-Descends_example =
    selected-Descends descent 10 Clock.factor at_thirty 5 third_snapshot path_valid second-Consumed
      third-IsDistinct Takes-third.1 Takes-third.2

take_snapshot_refines_example :
    (lookup 5 after_third.state, is_selected 5 Takes-third.0)
    ≡ symbol_step descent
        (decides at_thirty third_snapshot)
        30
        (rank_in 5 third_snapshot)
        (lookup 5 after_second.state)
take_snapshot_refines_example =
    take_snapshot_refines descent 10 Clock.factor at_thirty third_snapshot after_second 5
      (Consumed-IsUnique descent 10 Clock.factor at_thirty second-Consumed) third-IsDistinct
      Takes-third.1

abbrev top_rank : RankSide
top_rank = record { ranks = 1 ∷ []; ranges = [] }

-- Yesterday's first rank, bought today.
abbrev lagged : RankSelection Fixed
lagged = record {
  mode = SelectionMode.rank_set;
  clock = Clock.factor;
  lag = 1;
  long_side = top_rank;
  short_side = record { ranks = []; ranges = (2, 3) ∷ [] };
  descent = none;
  crossover = none;
}

abbrev buffer_two : List (List (RankRow Fixed))
buffer_two = (consume lagged 10 at_thirty second_snapshot []).1

abbrev buffer_three : List (List (RankRow Fixed))
buffer_three = (consume lagged 10 at_thirty third_snapshot buffer_two).1

consumes_two :
    (rows : List (Selected Fixed) × List Diagnostic) × (consume lagged 10 at_thirty second_snapshot
        []
      ≡ (ok rows, buffer_two))
unfolding consume
consumes_two = (_, refl)

consumes_three :
    (rows : List (Selected Fixed) × List Diagnostic) × (consume lagged 10 at_thirty third_snapshot
        buffer_two
      ≡ (ok rows, buffer_three))
unfolding consume
consumes_three = (_, refl)

decision_source_example :
    consumes_three.0 ≡ decide lagged 30 third_snapshot (some second_snapshot) (requests_of lagged)
unfolding get_elem?
decision_source_example =
    Lag.decision_source lagged 10 at_thirty third_snapshot
      (Lag.Consumed.took second_snapshot [] [] buffer_two consumes_two.0 Lag.Consumed.unused
        consumes_two.1)
      consumes_three.1

decide-requests_example :
    map
      (Lag.request_of lagged 30 third_snapshot)
      (decide lagged 30 third_snapshot (some second_snapshot) ((Side.long, 1) ∷ [])).1
    ≡ (Side.long, 1) ∷ []
decide-requests_example =
    Lag.decide-requests lagged 30 third_snapshot (some second_snapshot) ((Side.long, 1) ∷ [])

decide-IsAnswer_example :
    Lag.AreAnswers lagged 30 third_snapshot
      (some second_snapshot)
      ((Side.long, 1) ∷ [])
      (decide lagged 30 third_snapshot (some second_snapshot) ((Side.long, 1) ∷ [])).0
decide-IsAnswer_example =
    Lag.decide-IsAnswer lagged 30 third_snapshot (some second_snapshot) ((Side.long, 1) ∷ [])

-- Symbol 5 crosses 1.00 from below.
abbrev scored : ℕ → ℕ → Scored Fixed
scored time score = record {
  timestamp = time;
  symbol = 5;
  score = plus score;
  factor_version = 1;
  universe_version = 1;
}

abbrev thresholds : FactorCrossover Fixed
thresholds = record { entry_threshold = plus 100; exit_threshold = plus 50 }

abbrev no_scores : CrossTracker Fixed
no_scores = record { state = []; last_time = none }

abbrev below_entry : CrossTracker Fixed
below_entry = (take_scores thresholds 10 at_thirty (scored 20 90 ∷ []) no_scores).1

abbrev above_entry : CrossTracker Fixed
above_entry = (take_scores thresholds 10 at_thirty (scored 30 110 ∷ []) below_entry).1

takes_below :
    (rows : List (Selected Fixed)) × (take_scores thresholds 10 at_thirty
        (scored 20 90 ∷ [])
        no_scores
      ≡ (ok rows, below_entry))
unfolding take_scores lookup insert filter_items is_stale keep_seen
takes_below = (_, refl)

takes_above :
    (rows : List (Selected Fixed)) × (take_scores thresholds 10 at_thirty
        (scored 30 110 ∷ [])
        below_entry
      ≡ (ok rows, above_entry))
unfolding take_scores lookup insert filter_items is_stale keep_seen
takes_above = (_, refl)

one_score : (time score : ℕ) → HasOneScore (scored time score ∷ [])
unfolding score_in
one_score time score = (refl, tt)

take_scores_crosses_example : side_of 5 takes_above.0 ≡ some Side.long
unfolding crossing score_in adjacent_crossing
take_scores_crosses_example =
    take_scores_crosses thresholds 10 at_thirty 5 (scored 30 110 ∷ [])
      (Followed.took (scored 20 90 ∷ []) [] no_scores below_entry takes_below.0 Followed.unused
        (one_score 20 90) takes_below.1)
      (one_score 30 110) takes_above.1

-- A tracker without a path forgets its last time when it is resumed.
resumed_forgets :
    create_tracker 10 (some (true, export_state (record { state = []; last_time = some 30 })))
    ≡ ok (record { state = []; last_time = none })
unfolding create_tracker export_state sort
resumed_forgets = refl

lagged_valid : validate_sides lagged ≡ ok tt
unfolding validate_sides
lagged_valid = refl

validate_sides-disjoint_example :
    (side_contains lagged.long_side 2 && side_contains lagged.short_side 2) ≡ false
validate_sides-disjoint_example = validate_sides-disjoint lagged 2 lagged_valid refl

member-requested_example :
    member 3 (requested lagged.short_side) ≡ side_contains lagged.short_side 3
member-requested_example = member-requested lagged.short_side 3
