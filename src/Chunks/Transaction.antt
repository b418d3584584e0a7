-- ===== src/Chunks/Transaction.antt =====
-- V2ChunkTransaction of src/bfbt/performance/recovery.py: a chunk is written to a directory of its
-- own and then renamed into the workspace. What a serializer puts into a file is a parameter of each
-- write, and the checkpoint is read back as it was written.
use bfbt.Base.{
  ℕ, ◌++◌, Bool, true, false, not, ◌&&◌, ◌||◌, Option, none, some, List, [], ◌∷◌, ltb, leb, ◌==◌,
  if◌then◌else◌, length, any, all, count, place_by, sort_by, is_some,
}
use bfbt.Exec.{Result, ok, err}
use bfbt.Chunks.Plan.{TimeChunk}
use bfbt.Chunks.Workspace.{CheckpointFile, Checkpoint, DiskFile, ChunkDirectory, same_text}

pub data TransactionError : Type 0 where
  unsafe_name already_committed invalid_checkpoint : TransactionError

-- The transaction's state and the files of its directory.
pub record Transaction : Type 0 where
  pub chunk : TimeChunk
  pub file : List ℕ → Option DiskFile
  pub state_files : List CheckpointFile
  pub output_parts : List CheckpointFile
  pub is_committed : Bool

-- "[a-z]" and "[a-z0-9_-]"
abbrev pub is_letter : ℕ → Bool
is_letter c = leb b'a' c && leb c b'z'

abbrev pub is_name_character : ℕ → Bool
is_name_character c = is_letter c || (leb b'0' c && leb c b'9') || (c == b'_') || (c == b'-')

-- `_SAFE_NAME.fullmatch`
unfoldable pub is_safe_name : List ℕ → Bool
is_safe_name [] = false
is_safe_name (c ∷ name) = is_letter c && all is_name_character name

-- "state/", "outputs/", ".json" and ".parquet".
abbrev pub state_folder : List ℕ
state_folder = b's' ∷ b't' ∷ b'a' ∷ b't' ∷ b'e' ∷ b'/' ∷ []

abbrev pub output_folder : List ℕ
output_folder = b'o' ∷ b'u' ∷ b't' ∷ b'p' ∷ b'u' ∷ b't' ∷ b's' ∷ b'/' ∷ []

abbrev pub json_suffix : List ℕ
json_suffix = b'.' ∷ b'j' ∷ b's' ∷ b'o' ∷ b'n' ∷ []

abbrev pub parquet_suffix : List ℕ
parquet_suffix = b'.' ∷ b'p' ∷ b'a' ∷ b'r' ∷ b'q' ∷ b'u' ∷ b'e' ∷ b't' ∷ []

-- A file written over what a path held.
abbrev pub put : List ℕ → DiskFile → (List ℕ → Option DiskFile) → List ℕ → Option DiskFile
put path d file q = if same_text q path then some d else file q

-- `_record`, whether the file is a Parquet file.
unfoldable pub recorded : Bool → List ℕ → DiskFile → CheckpointFile
recorded is_parquet path d = record {
  relative_path = path;
  sha256 = d.sha256;
  byte_size = d.byte_size;
  row_count = if is_parquet then some d.rows else none;
}

-- A write to the state, and a write to the outputs.
unfoldable pub write_state : Bool → List ℕ → DiskFile → Transaction → Transaction
unfolding recorded
write_state is_parquet path d s = record s {
  file = put path d s.file;
  state_files = s.state_files ++ (recorded is_parquet path d ∷ []);
}

unfoldable pub write_output : List ℕ → DiskFile → Transaction → Transaction
unfolding recorded
write_output path d s = record s {
  file = put path d s.file;
  output_parts = s.output_parts ++ (recorded true path d ∷ []);
}

-- `write_state_json`, `write_state_frame` and `write_output_frame`, with the file they produce.
pub data Write : Type 0 where
  state_json state_frame output_frame : List ℕ → DiskFile → Write

unfoldable pub write : Write → Transaction → Result TransactionError Transaction
unfolding write_state write_output is_safe_name
write (Write.state_json name d) s =
    if is_safe_name name
    then ok (write_state false (state_folder ++ (name ++ json_suffix)) d s)
    else err TransactionError.unsafe_name
write (Write.state_frame name d) s =
    if is_safe_name name
    then ok (write_state true (state_folder ++ (name ++ parquet_suffix)) d s)
    else err TransactionError.unsafe_name
write (Write.output_frame name d) s =
    if is_safe_name name
    then ok (write_output (output_folder ++ (name ++ parquet_suffix)) d s)
    else err TransactionError.unsafe_name

-- `target.exists()`
abbrev pub has_target : ℕ → List ChunkDirectory → Bool
has_target ordinal directories = any (λ d. d.ordinal == ordinal) directories

-- `begin`
unfoldable pub begin_chunk : TimeChunk → List ChunkDirectory → Result TransactionError Transaction
begin_chunk chunk directories =
    if has_target chunk.ordinal directories
    then err TransactionError.already_committed
    else ok (record {
      chunk = chunk;
      file = λ path. none;
      state_files = [];
      output_parts = [];
      is_committed = false;
    })

-- The order of two texts.
unfoldable pub text_before : List ℕ → List ℕ → Bool
text_before [] y = true
text_before (a ∷ x) [] = false
text_before (a ∷ x) (b ∷ y) =
    let rest = text_before x y in if ltb a b then true else if a == b then rest else false

abbrev pub file_before : CheckpointFile → CheckpointFile → Bool
file_before a b = text_before a.relative_path b.relative_path

abbrev pub has_path : List ℕ → CheckpointFile → Bool
has_path path item = same_text path item.relative_path

-- `len(paths) != len(set(paths))`
unfoldable pub has_duplicate_paths : List CheckpointFile → Bool
has_duplicate_paths items = any (λ i. ltb 1 (count (has_path i.relative_path) items)) items

-- The validators of the checkpoint; `next_start` is set to the end.
unfoldable pub is_valid_checkpoint :
    (strip : List ℕ → List ℕ) → (counters : List (List ℕ × ℕ)) → Checkpoint → Bool
unfolding has_duplicate_paths
is_valid_checkpoint strip counters c =
    ltb c.start c.end
    && leb c.input_start c.start
    && not (any (λ x. length (strip x.0) == 0) counters)
    && not (has_duplicate_paths (c.state_files ++ c.output_parts))

-- The manifest that `commit` writes.
unfoldable pub manifest_of : List ℕ → Transaction → Checkpoint
unfolding text_before
manifest_of identity_sha256 s = record {
  identity_sha256 = identity_sha256;
  ordinal = s.chunk.ordinal;
  start = s.chunk.start;
  end = s.chunk.end;
  input_start = s.chunk.input_start;
  state_files = sort_by file_before s.state_files;
  output_parts = sort_by file_before s.output_parts;
}

-- The renamed directory: it holds what the transaction wrote, so a path to one of its files stays
-- inside.
unfoldable pub directory_of : Transaction → Checkpoint → ChunkDirectory
directory_of s c = record {
  ordinal = s.chunk.ordinal;
  checkpoint = some c;
  stays_inside = λ path. is_some (s.file path);
  file = s.file;
}

abbrev pub directory_before : ChunkDirectory → ChunkDirectory → Bool
directory_before a b = leb a.ordinal b.ordinal

-- `commit`: the directories, sorted by name, with the new one, the transaction, whose own directory
-- is gone, and the checkpoint.
unfoldable pub commit :
    (strip : List ℕ → List ℕ)
    → (identity_sha256 : List ℕ) → (counters : List (List ℕ × ℕ)) → Transaction
    → List ChunkDirectory
    → Result TransactionError (List ChunkDirectory × Transaction × Checkpoint)
unfolding is_valid_checkpoint manifest_of directory_of
commit strip identity_sha256 counters s directories =
    let c = manifest_of identity_sha256 s in
    if s.is_committed || has_target s.chunk.ordinal directories
    then err TransactionError.already_committed
    else if not (is_valid_checkpoint strip counters c)
    then err TransactionError.invalid_checkpoint
    else ok (
      place_by directory_before (directory_of s c) directories,
      record s { is_committed = true; file = λ path. none },
      c,
    )

-- The writes of a chunk, one after the other.
unfoldable pub write_all : List Write → Transaction → Result TransactionError Transaction
unfolding write
write_all [] s = ok s
write_all (w ∷ writes) s = elim (write w s) [ err e ↦ err e | ok t ↦ write_all writes t ]
