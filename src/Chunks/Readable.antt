-- ===== src/Chunks/Readable.antt =====
-- The directory of a committed transaction passes every check of a resume.
use bfbt.Base.{
  ℕ, ◌≤◌, ◌++◌, ◌≡◌, refl, false, List, [], ◌∷◌, arith, ltb, any-false-All, count, count-append,
  count-sort_by, sort_by, All, All-both, All-map, All-append, All-sort_by, inl, inr, ◌⊎◌,
}
use bfbt.Exec.{ok}
use bfbt.Chunks.Workspace.{
  CheckpointFile, Checkpoint, is_planned, check_file, check_files, read_checkpoint,
}
use bfbt.Chunks.Transaction.{
  Transaction, file_before, has_path, has_duplicate_paths, manifest_of, directory_of,
}
use bfbt.Chunks.Recorded.{same_text_self, IsRecorded, IsFaithful}

-- Without a doubled path every record is true, also in the order of the checkpoint.
sorted-IsRecorded :
    (s : Transaction)
    → IsFaithful s
    → has_duplicate_paths (sort_by file_before s.state_files ++ sort_by file_before s.output_parts)
      ≡ false
    → All
        (IsRecorded s.file)
        (sort_by file_before s.state_files ++ sort_by file_before s.output_parts)
unfolding has_duplicate_paths
sorted-IsRecorded s (h, k) single =
    let xs = sort_by file_before s.state_files in
    let ys = sort_by file_before s.output_parts in
    let items = s.state_files ++ s.output_parts in
    let once =
      any-false-All (λ i. ltb 1 (count (has_path i.relative_path) (xs ++ ys))) (xs ++ ys) single in
    let P =
      λ (i : CheckpointFile). (2 ≤ count (has_path i.relative_path) items) ⊎ IsRecorded s.file i in
    let rows =
      All-append P xs ys (All-sort_by P file_before s.state_files h)
        (All-sort_by P file_before s.output_parts k) in
    All-map (λ i. P i × (ltb 1 (count (has_path i.relative_path) (xs ++ ys)) ≡ false))
      (IsRecorded s.file) (only_once s) (xs ++ ys)
      (All-both P (λ i. ltb 1 (count (has_path i.relative_path) (xs ++ ys)) ≡ false) (xs ++ ys) rows
        once)
  where
    only_once :
        (s : Transaction) (i : CheckpointFile)
        → ((2 ≤ count (has_path i.relative_path) (s.state_files ++ s.output_parts))
            ⊎ IsRecorded s.file i)
          × (ltb 1 (
                count
                  (has_path i.relative_path)
                  (sort_by file_before s.state_files ++ sort_by file_before s.output_parts))
              ≡ false)
        → IsRecorded s.file i
    only_once s i (inr h, single) = h
    only_once s i (inl twice, single) =
        let p = has_path i.relative_path in
        absurd (
          ground (
            arith,
            twice,
            single,
            count-append p s.state_files s.output_parts,
            count-append p (sort_by file_before s.state_files) (sort_by file_before s.output_parts),
            count-sort_by p file_before s.state_files,
            count-sort_by p file_before s.output_parts,
          ))

check_files-IsRecorded :
    (s : Transaction) (c : Checkpoint) (items : List CheckpointFile)
    → All (IsRecorded s.file) items
    → check_files (directory_of s c) items ≡ ok tt
unfolding check_files check_file directory_of
check_files-IsRecorded s c [] h = refl
check_files-IsRecorded s c (i ∷ items) ((d, there, whole, rows), h) =
    let rest = check_files-IsRecorded s c items h in ground (arith, there, whole, rows, rest)

pub read_checkpoint-manifest_of :
    (identity_sha256 : List ℕ) (s : Transaction)
    → IsFaithful s
    → has_duplicate_paths (sort_by file_before s.state_files ++ sort_by file_before s.output_parts)
      ≡ false
    → read_checkpoint identity_sha256 s.chunk.ordinal s.chunk
        (directory_of s (manifest_of identity_sha256 s))
      ≡ ok (manifest_of identity_sha256 s)
unfolding read_checkpoint is_planned manifest_of directory_of
read_checkpoint-manifest_of identity_sha256 s h single =
    let c = manifest_of identity_sha256 s in
    let files =
      check_files-IsRecorded s c (c.state_files ++ c.output_parts) (sorted-IsRecorded s h single) in
    ground (arith, files, same_text_self identity_sha256)
