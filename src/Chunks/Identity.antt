-- ===== src/Chunks/Identity.antt =====
-- src/bfbt/performance/recovery.py: the check and the fingerprint of a plan, and the identity of a
-- run. A text is the list of its characters' codes; `content_sha256` of a plan's rows and the test
-- for the word "latest" in any case are parameters, and so is what pydantic strips of a text, since
-- `str_strip_whitespace` is set in src/bfbt/config/common.py.
use bfbt.Base.{
  ℕ, ◌+◌, Bool, false, not, ◌&&◌, ◌||◌, Option, none, some, List, [], ◌∷◌, ltb, leb, ◌==◌,
  if◌then◌else◌, length, all,
}
use bfbt.Exec.{Result, ok, err}
use bfbt.Chunks.Plan.{TimeChunk}

-- The three raises of `_plan_fingerprint`, and the refusal of the model.
pub data WorkspaceError : Type 0 where
  empty_plan bad_chunk gap invalid_identity : WorkspaceError

-- `V2ChunkRunIdentity`
pub record RunIdentity : Type 0 where
  pub run_id : List ℕ
  pub engine_version : List ℕ
  pub config_sha256 : List ℕ
  pub dataset_sha256 : List ℕ
  pub chunk_plan_sha256 : List ℕ
  pub run_start : ℕ
  pub run_end : ℕ
  pub chunk_interval : List ℕ
  pub overlap_seconds : ℕ

-- "[0-9a-f]"
abbrev pub is_hex : ℕ → Bool
is_hex c = (leb 48 c && leb c 57) || (leb 97 c && leb c 102)

-- "^[0-9a-f]{64}$"
abbrev pub is_sha256 : List ℕ → Bool
is_sha256 text = (length text == 64) && all is_hex text

-- `expected and chunks[expected - 1].end != item.start`, with the end of the chunk before, if any.
abbrev pub leaves_gap : Option ℕ → ℕ → Bool
leaves_gap none start = false
leaves_gap (some last) start = not (last == start)

-- The loop of `_plan_fingerprint`, from the chunk with an ordinal.
unfoldable pub check_plan : (expected : ℕ) → Option ℕ → List TimeChunk → Result WorkspaceError Unit
check_plan expected last [] = ok tt
check_plan expected last (c ∷ chunks) =
    let rest = check_plan (expected + 1) (some c.end) chunks in
    if not (c.ordinal == expected) || leb c.end c.start
    then err WorkspaceError.bad_chunk
    else if leaves_gap last c.start
    then err WorkspaceError.gap
    else rest

-- `_plan_fingerprint`
unfoldable pub plan_fingerprint :
    (List TimeChunk → List ℕ) → List TimeChunk → Result WorkspaceError (List ℕ)
unfolding check_plan
plan_fingerprint content_sha256 [] = err WorkspaceError.empty_plan
plan_fingerprint content_sha256 (c ∷ chunks) = elim (check_plan 0 none (c ∷ chunks)) [
  | err e ↦ err e
  | ok u ↦ ok (content_sha256 (c ∷ chunks))
]

-- The identity as pydantic stores it: each text is stripped before it is tested.
unfoldable pub stripped : (List ℕ → List ℕ) → RunIdentity → RunIdentity
stripped strip i = record i {
  run_id = strip i.run_id;
  engine_version = strip i.engine_version;
  config_sha256 = strip i.config_sha256;
  dataset_sha256 = strip i.dataset_sha256;
  chunk_plan_sha256 = strip i.chunk_plan_sha256;
  chunk_interval = strip i.chunk_interval;
}

-- The constraints on the stripped fields, and `validate_identity`.
unfoldable pub is_valid_identity : (List ℕ → Bool) → RunIdentity → Bool
is_valid_identity is_latest i =
    ltb 0 (length i.run_id)
    && ltb 0 (length i.engine_version)
    && is_sha256 i.config_sha256
    && is_sha256 i.dataset_sha256
    && is_sha256 i.chunk_plan_sha256
    && ltb 0 (length i.chunk_interval)
    && not (is_latest i.run_id)
    && ltb i.run_start i.run_end

-- The end of the last chunk, `chunks[-1].end`, or a time where there is none.
unfoldable pub last_end : ℕ → List TimeChunk → ℕ
last_end t [] = t
last_end t (c ∷ chunks) = last_end c.end chunks

-- The start of the first chunk, `chunks[0].start`.
abbrev pub first_start : List TimeChunk → ℕ
first_start [] = 0
first_start (c ∷ chunks) = c.start

-- The constructor: the stripped identity, unless a constraint fails.
unfoldable pub checked :
    (strip : List ℕ → List ℕ)
    → (is_latest : List ℕ → Bool) → RunIdentity
    → Result WorkspaceError RunIdentity
unfolding stripped is_valid_identity
checked strip is_latest i =
    if is_valid_identity is_latest (stripped strip i)
    then ok (stripped strip i)
    else err WorkspaceError.invalid_identity

-- `V2ChunkRunIdentity.from_plan`; an empty plan has no fingerprint.
unfoldable pub from_plan :
    (content_sha256 : List TimeChunk → List ℕ)
    → (strip : List ℕ → List ℕ) → (is_latest : List ℕ → Bool)
    → (run_id engine_version config_sha256 dataset_sha256 chunk_interval : List ℕ)
    → (overlap_seconds : ℕ) → List TimeChunk
    → Result WorkspaceError RunIdentity
unfolding plan_fingerprint checked last_end
from_plan content_sha256 strip is_latest run_id engine_version config_sha256 dataset_sha256
      chunk_interval overlap_seconds chunks =
    elim (plan_fingerprint content_sha256 chunks) [
      | err e ↦ err e
      | ok plan_sha256 ↦ checked strip is_latest (record {
        run_id = run_id;
        engine_version = engine_version;
        config_sha256 = config_sha256;
        dataset_sha256 = dataset_sha256;
        chunk_plan_sha256 = plan_sha256;
        run_start = first_start chunks;
        run_end = last_end 0 chunks;
        chunk_interval = chunk_interval;
        overlap_seconds = overlap_seconds;
      })
    ]
