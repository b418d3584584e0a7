-- ===== src/Chunks/Plan.antt =====
-- src/bfbt/performance/chunks.py. Times are microseconds from `datetime.min`, so that a shift below
-- it or past `datetime.max` overflows as it does in Python. An overlap is a natural, so the test
-- for a negative one is gone.
use bfbt.Base.{
  ℕ, zero, suc, ◌+◌, ◌-◌, ◌*◌, ◌/◌, ◌==◌, Bool, not, true, false, ◌||◌, Option, none, some, List,
  [], ◌∷◌, ltb, leb, if◌then◌else◌,
}
use bfbt.Exec.{Result, ok, err}
use bfbt.Config.Durations.{duration_seconds}

pub record TimeChunk : Type 0 where
  pub ordinal : ℕ
  pub start : ℕ
  pub end : ℕ
  pub input_start : ℕ

-- `ChunkPlanError`, the error of a duration, the `OverflowError` of a shifted time, and the
-- `AssertionError` of a gap.
pub data PlanError : Type 0 where
  empty_range bad_interval overflow internal_gap out_of_fuel : PlanError

abbrev pub second : ℕ
second = 1000000

-- `datetime.max`, 3652059 days after `datetime.min` less a microsecond.
abbrev pub datetime_max : ℕ
datetime_max = 3652059 * 86400 * 1000000 - 1

-- `TimeChunk.duration_seconds`
unfoldable pub chunk_seconds : TimeChunk → ℕ
chunk_seconds c = (c.end - c.start) / second

abbrev pub later : ℕ → ℕ → ℕ
later a b = if ltb a b then b else a

abbrev pub earlier : ℕ → ℕ → ℕ
earlier a b = if ltb b a then b else a

-- `max(input_start, floor)`, where there is a floor.
unfoldable pub clamp : Option ℕ → ℕ → ℕ
clamp none t = t
clamp (some floor) t = later t floor

-- The `while` loop. `step` is the interval and `back` the overlap in microseconds.
unfoldable pub plan_from :
    ℕ → (end step back : ℕ) → Option ℕ → (cursor ordinal : ℕ) → Result PlanError (List TimeChunk)
unfolding clamp
plan_from zero end step back floor cursor ordinal = elim (leb end cursor) [
  | true ↦ ok []
  | false ↦ err PlanError.out_of_fuel
]
plan_from (suc fuel) end step back floor cursor ordinal = elim (leb end cursor) [
  | true ↦ ok []
  | false ↦ elim (ltb datetime_max (cursor + step) || ltb cursor back) [
    | true ↦ err PlanError.overflow
    | false ↦
        elim (plan_from fuel end step back floor (earlier end (cursor + step)) (ordinal + 1)) [
          | err e ↦ err e
          | ok chunks ↦ ok (
              record {
                ordinal = ordinal;
                start = cursor;
                end = earlier end (cursor + step);
                input_start = clamp floor (cursor - back);
              }
              ∷ chunks)
        ]
  ]
]

-- Whether a chunk starts elsewhere than where the one before it ends.
unfoldable pub has_gap : List TimeChunk → Bool
has_gap [] = false
has_gap (c ∷ []) = false
has_gap (c ∷ d ∷ chunks) = not (c.end == d.start) || has_gap (d ∷ chunks)

-- The loop after the `while` loop.
unfoldable pub check_gaps : Result PlanError (List TimeChunk) → Result PlanError (List TimeChunk)
unfolding has_gap
check_gaps (err e) = err e
check_gaps (ok chunks) = if has_gap chunks then err PlanError.internal_gap else ok chunks

-- `plan_time_chunks`
unfoldable pub plan_time_chunks :
    (start end : ℕ) → List ℕ → (overlap_seconds : ℕ) → Option ℕ → Result PlanError (List TimeChunk)
unfolding plan_from check_gaps
plan_time_chunks start end chunk_interval overlap_seconds floor =
    if leb end start then err PlanError.empty_range else elim (duration_seconds chunk_interval) [
      | err e ↦ err PlanError.bad_interval
      | ok seconds ↦ check_gaps (
          plan_from ((end - start) / (seconds * second) + 1) end (seconds * second)
            (overlap_seconds * second) floor start 0)
    ]
