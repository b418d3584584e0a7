-- ===== src/Chunks/Partition.antt =====
-- The chunks of a plan divide its range, and the planner's loop ends.
use bfbt.Base.{
  ℕ, zero, suc, ◌+◌, ◌-◌, ◌*◌, ◌/◌, ◌≤◌, ◌<◌, ◌≡◌, refl, inl, inr, Bool, false, ◌&&◌, Option, List,
  [], ◌∷◌, arith, ltb, leb, Bool-cases, length, filter,
}
use native.Mathlib.Nat.{lt-div-mul-add}
use bfbt.Exec.{Result, ok, err}
use bfbt.Exec.Laws.{Returns, Result-cases}
use bfbt.Config.Durations.{duration_seconds}
use bfbt.Config.Grammar.{duration_seconds-pos}
use bfbt.Chunks.Plan.{
  PlanError, has_gap, check_gaps, TimeChunk, second, datetime_max, earlier, clamp, plan_from,
  plan_time_chunks,
}

-- Chunks numbered on from `ordinal` that divide the time from `cursor` to `end` without a gap into
-- windows of `step`, the last of which may be shorter.
abbrev pub IsPlan : (step end cursor ordinal : ℕ) → List TimeChunk → Type 0
IsPlan step end cursor ordinal [] = end ≤ cursor
IsPlan step end cursor ordinal (c ∷ cs) =
    (c.ordinal ≡ ordinal)
    × (c.start ≡ cursor)
    × (cursor < c.end)
    × (c.end ≡ earlier end (cursor + step))
    × IsPlan step end c.end (ordinal + 1) cs

module _ (end step back : ℕ) (floor : Option ℕ) where
  plan_from-IsPlan :
      (fuel cursor ordinal : ℕ) {chunks : List TimeChunk}
      → 1 ≤ step
      → plan_from fuel end step back floor cursor ordinal ≡ ok chunks
      → IsPlan step end cursor ordinal chunks
  unfolding plan_from
  plan_from-IsPlan zero cursor ordinal {chunks} p h = ground arith
  plan_from-IsPlan (suc fuel) cursor ordinal {chunks} p h =
      elim (Result-cases
        (plan_from fuel end step back floor (earlier end (cursor + step)) (ordinal + 1))) [
          | inl (e, failed) ↦ ground arith
          | inr (rest, found) ↦ ground (
            arith,
            plan_from-IsPlan fuel (earlier end (cursor + step)) (ordinal + 1) {chunks = rest} p
                found,
          )
        ]

  plan_from-Returns :
      (fuel cursor ordinal : ℕ)
      → end + step ≤ datetime_max
      → back ≤ cursor
      → end ≤ cursor + fuel * step
      → Returns (plan_from fuel end step back floor cursor ordinal)
  unfolding plan_from
  plan_from-Returns zero cursor ordinal small room enough = ([], ground arith)
  plan_from-Returns (suc fuel) cursor ordinal small room enough =
      elim (Bool-cases (leb end cursor)) [
        | inl done ↦ ([], ground arith)
        | inr more ↦
            let (rest, found) =
              plan_from-Returns fuel (earlier end (cursor + step)) (ordinal + 1) small
                (ground arith) (ground arith) in
            (
              record {
                ordinal = ordinal;
                start = cursor;
                end = earlier end (cursor + step);
                input_start = clamp floor (cursor - back);
              }
                  ∷ rest,
              ground arith,
            )
      ]

-- A chunk holds the times from its start up to its end.
abbrev pub holds : ℕ → TimeChunk → Bool
holds t c = leb c.start t && ltb t c.end

IsPlan-after :
    (step end cursor ordinal t : ℕ) (chunks : List TimeChunk)
    → IsPlan step end cursor ordinal chunks
    → t < cursor
    → length (filter (holds t) chunks) ≡ 0
IsPlan-after step end cursor ordinal t [] p h = refl
IsPlan-after step end cursor ordinal t (c ∷ cs) p h =
    ground (arith, p, IsPlan-after step end c.end (ordinal + 1) t cs)

IsPlan-covers :
    (step end cursor ordinal t : ℕ) (chunks : List TimeChunk)
    → IsPlan step end cursor ordinal chunks
    → cursor ≤ t
    → t < end
    → length (filter (holds t) chunks) ≡ 1
IsPlan-covers step end cursor ordinal t [] p h k = absurd (omega arith)
IsPlan-covers step end cursor ordinal t (c ∷ cs) p h k = ground (
  arith,
  p,
  IsPlan-after step end c.end (ordinal + 1) t cs,
  IsPlan-covers step end c.end (ordinal + 1) t cs,
)

has_gap-IsPlan :
    (step end cursor ordinal : ℕ) (chunks : List TimeChunk)
    → IsPlan step end cursor ordinal chunks
    → has_gap chunks ≡ false
unfolding has_gap
has_gap-IsPlan step end cursor ordinal [] p = refl
has_gap-IsPlan step end cursor ordinal (c ∷ []) p = refl
has_gap-IsPlan step end cursor ordinal (c ∷ d ∷ chunks) (o, s, nonempty, e, p) =
    ground (arith, p.1, has_gap-IsPlan step end c.end (ordinal + 1) (d ∷ chunks) p)

check_gaps-eq-ok :
    (r : Result PlanError (List TimeChunk)) {chunks : List TimeChunk}
    → check_gaps r ≡ ok chunks
    → r ≡ ok chunks
unfolding check_gaps
check_gaps-eq-ok (err e) h = h
check_gaps-eq-ok (ok cs) h = ground (arith, h)

plan_time_chunks_lem :
    (start end : ℕ) (interval : List ℕ) (overlap : ℕ) (floor : Option ℕ) {chunks : List TimeChunk}
    → plan_time_chunks start end interval overlap floor ≡ ok chunks
    → (start < end)
      × (seconds : ℕ) × (duration_seconds interval ≡ ok seconds)
      × (plan_from
            ((end - start) / (seconds * second) + 1)
            end
            (seconds * second)
            (overlap * second)
            floor
            start
            0
          ≡ ok chunks)
unfolding plan_time_chunks
plan_time_chunks_lem start end interval overlap floor h =
    elim (Result-cases (duration_seconds interval)) [
      | inl (e, failed) ↦ absurd (ground arith)
      | inr (seconds, known) ↦ (
        ground arith,
        seconds,
        known,
        check_gaps-eq-ok
            (plan_from ((end - start) / (seconds * second) + 1) end (seconds * second)
              (overlap * second) floor start 0)
            (ground (arith, h, known)),
      )
    ]

pub plan_time_chunks-IsPlan :
    (start end : ℕ) (interval : List ℕ) (overlap : ℕ) (floor : Option ℕ) {chunks : List TimeChunk}
    → plan_time_chunks start end interval overlap floor ≡ ok chunks
    → (start < end)
      × (seconds : ℕ) × (duration_seconds interval ≡ ok seconds)
      × IsPlan (seconds * second) end start 0 chunks
plan_time_chunks-IsPlan start end interval overlap floor {chunks} h =
    let (nonempty, seconds, known, e) = plan_time_chunks_lem start end interval overlap floor h in
    (
      nonempty,
      seconds,
      known,
      plan_from-IsPlan end (seconds * second) (overlap * second) floor _ start 0
          (ground (arith, duration_seconds-pos interval known)) e,
    )

-- The chunks of a plan that is returned are numbered from 0, follow each other without a gap from
-- the start to the end of the range, and none but the last is shorter than the interval; every
-- time of the range is in exactly one of them.
pub plan_time_chunks_partitions :
    (start end : ℕ) (interval : List ℕ) (overlap : ℕ) (floor : Option ℕ) {chunks : List TimeChunk}
    (t : ℕ)
    → plan_time_chunks start end interval overlap floor ≡ ok chunks
    → start ≤ t
    → t < end
    → (seconds : ℕ) × (duration_seconds interval ≡ ok seconds)
      × IsPlan (seconds * second) end start 0 chunks
      × (length (filter (holds t) chunks) ≡ 1)
plan_time_chunks_partitions start end interval overlap floor {chunks} t h after before =
    let (nonempty, seconds, known, plan) =
      plan_time_chunks-IsPlan start end interval overlap floor h in
    (seconds, known, plan, IsPlan-covers (seconds * second) end start 0 t chunks plan after before)

quotient_enough : (a b : ℕ) → 1 ≤ b → a ≤ (a / b + 1) * b
quotient_enough a b h = omega (arith, lt-div-mul-add {a = a} {b = b} h)

-- The loop of the planner ends: a range with room for one interval before `datetime.max`, and for
-- the overlap after `datetime.min`, is planned, whatever the interval.
pub plan_time_chunks-Returns :
    (start end : ℕ) (interval : List ℕ) (overlap : ℕ) (floor : Option ℕ) (seconds : ℕ)
    → start < end
    → duration_seconds interval ≡ ok seconds
    → end + seconds * second ≤ datetime_max
    → overlap * second ≤ start
    → Returns (plan_time_chunks start end interval overlap floor)
unfolding plan_time_chunks check_gaps
plan_time_chunks-Returns start end interval overlap floor seconds h known small room =
    let step = seconds * second in
    let p : 1 ≤ step = ground (arith, duration_seconds-pos interval known) in
    let q = quotient_enough (end - start) step p in
    let (chunks, found) =
      plan_from-Returns end step (overlap * second) floor ((end - start) / step + 1) start 0 small
        room (omega (arith, q)) in
    let joined =
      has_gap-IsPlan step end start 0 chunks
        (plan_from-IsPlan end step (overlap * second) floor _ start 0 p found) in
    (chunks, ground (arith, joined, found, known, h))
