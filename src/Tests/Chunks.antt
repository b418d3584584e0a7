-- ===== src/Tests/Chunks.antt =====
-- Runs of the duration parser and the chunk planner.
use bfbt.Base.{
  all, ◌++◌, ◌&&◌, false, if◌then◌else◌, ℕ, zero, suc, Bool, true, ◌==◌, ◌*◌, ◌≡◌, refl, ◌↔◌, some,
  List, [], ◌∷◌, arith, length, filter,
}
use bfbt.Config.Durations.{DurationError, duration_seconds}
use bfbt.Config.Grammar.{IsDuration, duration_seconds_iff}
use bfbt.Chunks.Plan.{TimeChunk, second, plan_time_chunks}
use bfbt.Chunks.Partition.{IsPlan, holds, plan_time_chunks_partitions, plan_time_chunks-Returns}
use bfbt.Chunks.Identity.{WorkspaceError, is_sha256, from_plan}
use bfbt.Chunks.Accepted.{is_alphanumeric, from_plan-plan_time_chunks}
use bfbt.Chunks.Identity.{RunIdentity}
use bfbt.Chunks.Workspace.{
  DiskFile, CheckpointFile, Checkpoint, ChunkDirectory, committed, next_chunk,
}
use bfbt.Chunks.Transaction.{Transaction, begin_chunk, Write, write_all}
use bfbt.Chunks.Resume.{committed_to, GoesOn, next_chunk-GoesOn}
use bfbt.Exec.{ok, err}
use bfbt.Exec.Laws.{Returns}

-- "2s"
abbrev two_seconds : List ℕ
two_seconds = 50 ∷ 115 ∷ []

two_seconds_lem : duration_seconds two_seconds ≡ ok 2
unfolding duration_seconds
two_seconds_lem = refl

-- "02s" is no duration.
leading_zero_lem : duration_seconds (48 ∷ 50 ∷ 115 ∷ []) ≡ err DurationError.bad_duration
unfolding duration_seconds
leading_zero_lem = refl

duration_seconds_iff_example : (duration_seconds two_seconds ≡ ok 2) ↔ IsDuration two_seconds 2
duration_seconds_iff_example = duration_seconds_iff two_seconds 2

-- From 1 s to 6 s in windows of 2 s: the last chunk is 1 s long.
abbrev from_one : ℕ
from_one = 1000000

abbrev to_six : ℕ
to_six = 6000000

abbrev chunk : ℕ → ℕ → ℕ → ℕ → TimeChunk
chunk ordinal start end input = record {
  ordinal = ordinal;
  start = start;
  end = end;
  input_start = input;
}

abbrev three_chunks : List TimeChunk
three_chunks =
    chunk 0 1000000 3000000 1000000
    ∷ chunk 1 3000000 5000000 2000000
    ∷ chunk 2 5000000 6000000 4000000
    ∷ []

three_chunks_lem : plan_time_chunks from_one to_six two_seconds 1 (some from_one) ≡ ok three_chunks
unfolding plan_time_chunks duration_seconds
three_chunks_lem = refl

plan_time_chunks_partitions_example :
    (seconds : ℕ) × (duration_seconds two_seconds ≡ ok seconds)
    × IsPlan (seconds * second) to_six from_one 0 three_chunks
    × (length (filter (holds 5500000) three_chunks) ≡ 1)
plan_time_chunks_partitions_example =
    plan_time_chunks_partitions from_one to_six two_seconds 1 (some from_one) 5500000
      three_chunks_lem (omega arith) (omega arith)

plan_time_chunks-Returns_example :
    Returns (plan_time_chunks from_one to_six two_seconds 1 (some from_one))
plan_time_chunks-Returns_example =
    plan_time_chunks-Returns from_one to_six two_seconds 1 (some from_one) 2 (omega arith)
      two_seconds_lem (omega arith) (omega arith)

-- Sixty-four zeros.
abbrev zeros : ℕ → List ℕ
zeros zero = []
zeros (suc n) = 48 ∷ zeros n

abbrev digest : List TimeChunk → List ℕ
digest chunks = zeros 64

digest_lem : (chunks : List TimeChunk) → is_sha256 (digest chunks) ≡ true
digest_lem chunks = refl

abbrev is_latest : List ℕ → Bool
is_latest text = length text == 6

-- "r1"
abbrev run : List ℕ
run = 114 ∷ 49 ∷ []

abbrev is_empty : List ℕ → Bool
is_empty [] = true
is_empty (c ∷ text) = false

-- Spaces at the start, and spaces at the end, are dropped.
unfoldable drop_left : List ℕ → List ℕ
drop_left [] = []
drop_left (c ∷ text) = let rest = drop_left text in if c == b' ' then rest else c ∷ text

unfoldable drop_right : List ℕ → List ℕ
drop_right [] = []
drop_right (c ∷ text) =
    let rest = drop_right text in if (c == b' ') && is_empty rest then [] else c ∷ rest

abbrev strip : List ℕ → List ℕ
strip text = drop_left (drop_right text)

drop_right_lem : (text : List ℕ) → all is_alphanumeric text ≡ true → drop_right text ≡ text
unfolding drop_right
drop_right_lem [] h = refl
drop_right_lem (c ∷ text) h = ground (arith, h, drop_right_lem text)

drop_left_lem : (text : List ℕ) → all is_alphanumeric text ≡ true → drop_left text ≡ text
unfolding drop_left
drop_left_lem [] h = refl
drop_left_lem (c ∷ text) h = ground (arith, h)

strip_lem : (text : List ℕ) → all is_alphanumeric text ≡ true → strip text ≡ text
strip_lem text h = rw (drop_right_lem text h) (drop_left_lem text h)

-- " r1 "
abbrev padded : List ℕ
padded = b' ' ∷ (run ++ (b' ' ∷ []))

padded_lem : strip padded ≡ run
unfolding drop_left drop_right
padded_lem = refl

abbrev blank : List ℕ
blank = b' ' ∷ b' ' ∷ []

blank_lem :
    from_plan digest strip is_latest blank run (zeros 64) (zeros 64) two_seconds 1 three_chunks
    ≡ err WorkspaceError.invalid_identity
unfolding from_plan drop_left drop_right
blank_lem = refl

from_plan-plan_time_chunks_example :
    from_plan digest strip is_latest padded run (zeros 64) (zeros 64) two_seconds 1 three_chunks
    ≡ ok (record {
      run_id = strip padded;
      engine_version = strip run;
      config_sha256 = strip (zeros 64);
      dataset_sha256 = strip (zeros 64);
      chunk_plan_sha256 = zeros 64;
      run_start = from_one;
      run_end = to_six;
      chunk_interval = two_seconds;
      overlap_seconds = 1;
    })
unfolding drop_left drop_right
from_plan-plan_time_chunks_example =
    from_plan-plan_time_chunks digest strip is_latest padded run (zeros 64) (zeros 64) two_seconds
      from_one to_six 1 (some from_one) three_chunks_lem strip_lem digest_lem refl refl refl

-- The workspace of that run after its first chunk, with one state file of one row.
abbrev identity : RunIdentity
identity = record {
  run_id = run;
  engine_version = run;
  config_sha256 = zeros 64;
  dataset_sha256 = zeros 64;
  chunk_plan_sha256 = zeros 64;
  run_start = from_one;
  run_end = to_six;
  chunk_interval = two_seconds;
  overlap_seconds = 1;
}

abbrev state_file : CheckpointFile
state_file = record { relative_path = run; sha256 = zeros 64; byte_size = 9; row_count = some 1 }

abbrev first_checkpoint : Checkpoint
first_checkpoint = record {
  identity_sha256 = zeros 64;
  ordinal = 0;
  start = 1000000;
  end = 3000000;
  input_start = 1000000;
  state_files = state_file ∷ [];
  output_parts = [];
}

abbrev first_directory : ChunkDirectory
first_directory = record {
  ordinal = 0;
  checkpoint = some first_checkpoint;
  stays_inside = λ path. true;
  file = λ path. some (record { byte_size = 9; sha256 = zeros 64; rows = 1 });
}

abbrev second_chunk : TimeChunk
second_chunk = chunk 1 3000000 5000000 2000000

next_chunk_lem :
    next_chunk digest identity (zeros 64) three_chunks (first_directory ∷ [])
    ≡ ok (some second_chunk)
unfolding next_chunk
next_chunk_lem = refl

next_chunk-GoesOn_example :
    (checkpoints : List Checkpoint) × (committed digest identity
        (zeros 64)
        three_chunks
        (first_directory ∷ [])
      ≡ ok checkpoints)
    × (length checkpoints ≡ 1)
    × GoesOn to_six (committed_to from_one checkpoints) (length checkpoints) (some second_chunk)
next_chunk-GoesOn_example =
    next_chunk-GoesOn digest identity (zeros 64) three_chunks (first_directory ∷ []) from_one to_six
      two_seconds 1 (some from_one) three_chunks_lem next_chunk_lem

-- The second chunk, with a state and an output of the same name.
abbrev disk_file : DiskFile
disk_file = record { byte_size = 5; sha256 = zeros 64; rows = 2 }

abbrev writes : List Write
writes = Write.output_frame run disk_file ∷ Write.state_json run disk_file ∷ []

begun : (s : Transaction) × (begin_chunk second_chunk (first_directory ∷ []) ≡ ok s)
unfolding begin_chunk
begun = (_, refl)

written : (t : Transaction) × (write_all writes begun.0 ≡ ok t)
unfolding write_all
written = (_, refl)
