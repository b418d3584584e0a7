-- ===== src/Chunks/Workspace.antt =====
-- `committed` and `next_chunk` of V2ChunkWorkspace in src/bfbt/performance/recovery.py, over the
-- workspace's directory. `_utc` leaves a time as it is, since times are microseconds.
use bfbt.Base.{
  ℕ, zero, suc, ◌+◌, Bool, true, false, not, ◌&&◌, ◌||◌, Option, none, some, List, [], ◌∷◌, ◌++◌,
  ltb, ◌==◌, if◌then◌else◌, length,
}
use bfbt.Exec.{Result, ok, err}
use bfbt.Chunks.Plan.{TimeChunk}
use bfbt.Chunks.Identity.{WorkspaceError, RunIdentity, first_start, last_end, plan_fingerprint}

-- The raises of `committed`; the first two come from the plan.
pub data ResumeError : Type 0 where
  bad_plan : WorkspaceError → ResumeError
  other_plan too_many not_contiguous bad_checkpoint unplanned escapes broken_file : ResumeError
  row_count_changed : ResumeError

abbrev pub same_text : List ℕ → List ℕ → Bool
same_text [] [] = true
same_text (a ∷ x) (b ∷ y) = (a == b) && same_text x y
same_text [] (b ∷ y) = false
same_text (a ∷ x) [] = false

-- `CheckpointFile`; a Parquet file is one with a row count, by `validate_format`.
pub record CheckpointFile : Type 0 where
  pub relative_path : List ℕ
  pub sha256 : List ℕ
  pub byte_size : ℕ
  pub row_count : Option ℕ

-- `V2ChunkCheckpoint`, as far as a resume reads it.
pub record Checkpoint : Type 0 where
  pub identity_sha256 : List ℕ
  pub ordinal : ℕ
  pub start : ℕ
  pub end : ℕ
  pub input_start : ℕ
  pub state_files : List CheckpointFile
  pub output_parts : List CheckpointFile

-- A file on disk: its size, its digest and the rows that its Parquet footer counts.
pub record DiskFile : Type 0 where
  pub byte_size : ℕ
  pub sha256 : List ℕ
  pub rows : ℕ

-- A directory under chunks: the ordinal of its name, its checkpoint where that is read and valid,
-- and what its paths resolve to, with whether that stays inside the directory.
pub record ChunkDirectory : Type 0 where
  pub ordinal : ℕ
  pub checkpoint : Option Checkpoint
  pub stays_inside : List ℕ → Bool
  pub file : List ℕ → Option DiskFile

-- The checks of a checkpoint against the run and its chunk of the plan.
unfoldable pub is_planned : (identity_sha256 : List ℕ) → TimeChunk → Checkpoint → Bool
is_planned identity_sha256 planned c =
    same_text c.identity_sha256 identity_sha256
    && (c.ordinal == planned.ordinal)
    && (c.start == planned.start)
    && (c.end == planned.end)
    && (c.input_start == planned.input_start)

abbrev pub is_intact : CheckpointFile → DiskFile → Bool
is_intact item file = (file.byte_size == item.byte_size) && same_text file.sha256 item.sha256

abbrev pub has_rows : Option ℕ → ℕ → Bool
has_rows none rows = true
has_rows (some count) rows = rows == count

-- The checks of one file.
unfoldable pub check_file : ChunkDirectory → CheckpointFile → Result ResumeError Unit
check_file directory item =
    if not (directory.stays_inside item.relative_path)
    then err ResumeError.escapes
    else elim (directory.file item.relative_path) [
      | none ↦ err ResumeError.broken_file
      | some file ↦
          if not (is_intact item file)
          then err ResumeError.broken_file
          else if not (has_rows item.row_count file.rows)
          then err ResumeError.row_count_changed
          else ok tt
    ]

unfoldable pub check_files : ChunkDirectory → List CheckpointFile → Result ResumeError Unit
unfolding check_file
check_files directory [] = ok tt
check_files directory (item ∷ items) =
    let rest = check_files directory items in
    elim (check_file directory item) [ err e ↦ err e | ok u ↦ rest ]

-- The body of the loop.
unfoldable pub read_checkpoint :
    (identity_sha256 : List ℕ)
    → (expected_ordinal : ℕ) → TimeChunk
    → ChunkDirectory
    → Result ResumeError Checkpoint
unfolding is_planned check_files
read_checkpoint identity_sha256 expected_ordinal planned directory =
    if not (directory.ordinal == expected_ordinal)
    then err ResumeError.not_contiguous
    else elim directory.checkpoint [
      | none ↦ err ResumeError.bad_checkpoint
      | some c ↦
          if not (is_planned identity_sha256 planned c)
          then err ResumeError.unplanned
          else elim (check_files directory (c.state_files ++ c.output_parts)) [
            | err e ↦ err e
            | ok u ↦ ok c
          ]
    ]

-- The loop over the directories, from one ordinal on, and the chunks of the plan left.
unfoldable pub read_checkpoints :
    (identity_sha256 : List ℕ)
    → (expected_ordinal : ℕ) → List TimeChunk
    → List ChunkDirectory
    → Result ResumeError (List Checkpoint)
unfolding read_checkpoint
read_checkpoints identity_sha256 expected_ordinal plan [] = ok []
read_checkpoints identity_sha256 expected_ordinal [] (d ∷ directories) = err ResumeError.too_many
read_checkpoints identity_sha256 expected_ordinal (planned ∷ plan) (d ∷ directories) =
    let rest = read_checkpoints identity_sha256 (expected_ordinal + 1) plan directories in
    elim (read_checkpoint identity_sha256 expected_ordinal planned d) [
      | err e ↦ err e
      | ok c ↦ elim rest [ err e ↦ err e | ok checkpoints ↦ ok (c ∷ checkpoints) ]
    ]

-- Whether a plan is not the one of a run.
abbrev pub is_other_plan : RunIdentity → List ℕ → List TimeChunk → Bool
is_other_plan identity fingerprint plan =
    not (same_text fingerprint identity.chunk_plan_sha256)
    || not (first_start plan == identity.run_start)
    || not (last_end 0 plan == identity.run_end)

-- `committed`, over the directories sorted by name. `identity_sha256` is the run's fingerprint.
unfoldable pub committed :
    (content_sha256 : List TimeChunk → List ℕ)
    → RunIdentity
    → (identity_sha256 : List ℕ) → List TimeChunk
    → List ChunkDirectory
    → Result ResumeError (List Checkpoint)
unfolding plan_fingerprint last_end read_checkpoints
committed content_sha256 identity identity_sha256 plan directories =
    elim (plan_fingerprint content_sha256 plan) [
      | err e ↦ err (ResumeError.bad_plan e)
      | ok fingerprint ↦
          if is_other_plan identity fingerprint plan
          then err ResumeError.other_plan
          else if ltb (length plan) (length directories)
          then err ResumeError.too_many
          else read_checkpoints identity_sha256 0 plan directories
    ]

-- `plan[n]` for an n below the plan's length, and none from there on.
unfoldable pub chunk_at : ℕ → List TimeChunk → Option TimeChunk
chunk_at n [] = none
chunk_at zero (c ∷ plan) = some c
chunk_at (suc n) (c ∷ plan) = chunk_at n plan

-- `next_chunk`
unfoldable pub next_chunk :
    (content_sha256 : List TimeChunk → List ℕ)
    → RunIdentity
    → (identity_sha256 : List ℕ) → List TimeChunk
    → List ChunkDirectory
    → Result ResumeError (Option TimeChunk)
unfolding committed chunk_at
next_chunk content_sha256 identity identity_sha256 plan directories =
    elim (committed content_sha256 identity identity_sha256 plan directories) [
      | err e ↦ err e
      | ok completed ↦ ok (chunk_at (length completed) plan)
    ]
