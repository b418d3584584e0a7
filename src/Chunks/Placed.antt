-- ===== src/Chunks/Placed.antt =====
-- A new directory comes last among those of a workspace.
use bfbt.Base.{
  ℕ, ◌+◌, ◌++◌, ◌≡◌, ap, subst, false, some, List, [], ◌∷◌, arith, leb, length, place_by, inl, inr,
}
use bfbt.Exec.{ok}
use bfbt.Exec.Laws.{Result-cases, ok-injective}
use bfbt.Chunks.Plan.{TimeChunk}
use bfbt.Chunks.Workspace.{Checkpoint, ChunkDirectory, read_checkpoint, read_checkpoints, chunk_at}
use bfbt.Chunks.Transaction.{directory_before}

read_checkpoint-ordinal :
    (identity_sha256 : List ℕ) (expected : ℕ) (planned : TimeChunk) (d : ChunkDirectory)
    {c : Checkpoint}
    → read_checkpoint identity_sha256 expected planned d ≡ ok c
    → d.ordinal ≡ expected
unfolding read_checkpoint
read_checkpoint-ordinal identity_sha256 expected planned d h = ground (arith, h)

-- A directory of the next ordinal comes last, and its checkpoint after the others.
pub read_checkpoints-place_by :
    (identity_sha256 : List ℕ) (k : ℕ) (plan : List TimeChunk) (ds : List ChunkDirectory)
    (chunk : TimeChunk) (d : ChunkDirectory) {cs : List Checkpoint} {c : Checkpoint}
    → read_checkpoints identity_sha256 k plan ds ≡ ok cs
    → chunk_at (length ds) plan ≡ some chunk
    → d.ordinal ≡ k + length ds
    → read_checkpoint identity_sha256 d.ordinal chunk d ≡ ok c
    → read_checkpoints identity_sha256 k plan (place_by directory_before d ds) ≡ ok (cs ++ (c ∷ []))
unfolding read_checkpoints chunk_at place_by
read_checkpoints-place_by identity_sha256 k [] [] chunk d h at n r = cc
read_checkpoints-place_by identity_sha256 k (p ∷ plan) [] chunk d {cs} {c} h at n r =
    let first : read_checkpoint identity_sha256 k p d ≡ ok c =
      subst (λ x. read_checkpoint identity_sha256 k x d ≡ ok c) (ground (arith, at))
        (subst (λ m. read_checkpoint identity_sha256 m chunk d ≡ ok c) (ground (arith, n)) r) in
    rw (first, place_by, read_checkpoints) (ap (λ xs. ok (xs ++ (c ∷ []))) (ok-injective h))
read_checkpoints-place_by identity_sha256 k [] (y ∷ ds) chunk d h at n r =
    absurd (ground (arith, h))
read_checkpoints-place_by identity_sha256 k (p ∷ plan) (y ∷ ds) chunk d {cs} {c} h at n r =
    elim (Result-cases (read_checkpoint identity_sha256 k p y)) [
      | inl (failure, failed) ↦ absurd (ground (arith, h, failed))
      | inr (x, found) ↦ elim (Result-cases (read_checkpoints identity_sha256 (k + 1) plan ds)) [
        | inl (failure, failed) ↦ absurd (ground (arith, h, found, failed))
        | inr (rest, read) ↦
            let same : x ∷ rest ≡ cs = ground (arith, h, found, read) in
            let later : leb d.ordinal y.ordinal ≡ false =
              ground (arith, n, read_checkpoint-ordinal identity_sha256 k p y found) in
            let tail =
              read_checkpoints-place_by identity_sha256 (k + 1) plan ds chunk d {cs = rest} {c = c}
                read at (ground (arith, n)) r in
            rw (later, found, tail, place_by, read_checkpoints)
              (ap (λ xs. ok (xs ++ (c ∷ []))) same)
      ]
    ]
