-- ===== src/Chunks/Resume.antt =====
-- A resumed run goes on where its last committed chunk ended.
use bfbt.Base.{
  ℕ, suc, ◌+◌, ◌*◌, ◌≤◌, ◌≡◌, refl, subst, Option, none, some, List, [], ◌∷◌, arith, length, inl,
  inr,
}
use bfbt.Exec.{ok}
use bfbt.Exec.Laws.{Result-cases, ok-injective}
use bfbt.Chunks.Plan.{TimeChunk, second, plan_time_chunks}
use bfbt.Chunks.Partition.{IsPlan, plan_time_chunks-IsPlan}
use bfbt.Chunks.Identity.{RunIdentity, plan_fingerprint}
use bfbt.Chunks.Workspace.{
  Checkpoint, ChunkDirectory, is_planned, read_checkpoint, read_checkpoints, committed, chunk_at,
  next_chunk,
}

-- The time up to which checkpoints are committed, from a start.
abbrev pub committed_to : ℕ → List Checkpoint → ℕ
committed_to t [] = t
committed_to t (c ∷ checkpoints) = committed_to c.end checkpoints

-- A chunk goes on from a time, as the one with an ordinal; with none left, the time is the end.
abbrev pub GoesOn : (end at ordinal : ℕ) → Option TimeChunk → Type 0
GoesOn end at ordinal none = at ≡ end
GoesOn end at ordinal (some c) = (c.ordinal ≡ ordinal) × (c.start ≡ at)

read_checkpoint-end :
    (identity_sha256 : List ℕ) (expected : ℕ) (planned : TimeChunk) (d : ChunkDirectory)
    {c : Checkpoint}
    → read_checkpoint identity_sha256 expected planned d ≡ ok c
    → c.end ≡ planned.end
unfolding read_checkpoint is_planned
read_checkpoint-end identity_sha256 expected planned d {c} h = ground (arith, h)

-- The checkpoints answer the directories, and the chunk after them goes on.
abbrev pub IsResumed : (end cursor ordinal : ℕ) → List TimeChunk → ℕ → List Checkpoint → Type 0
IsResumed end cursor ordinal plan n checkpoints =
    (length checkpoints ≡ n)
    × GoesOn end (committed_to cursor checkpoints) (length checkpoints + ordinal)
        (chunk_at (length checkpoints) plan)

IsResumed-nil :
    (step end cursor ordinal : ℕ) (plan : List TimeChunk)
    → cursor ≤ end
    → IsPlan step end cursor ordinal plan
    → IsResumed end cursor ordinal plan 0 []
unfolding chunk_at
IsResumed-nil step end cursor ordinal [] h p = (refl, omega (arith, h, p))
IsResumed-nil step end cursor ordinal (c ∷ plan) h p = (refl, (ground (arith, p.0), p.1))

IsResumed-cons :
    (end cursor ordinal : ℕ) (c : TimeChunk) (plan : List TimeChunk) (n : ℕ) (k : Checkpoint)
    (checkpoints : List Checkpoint)
    → k.end ≡ c.end
    → IsResumed end c.end (ordinal + 1) plan n checkpoints
    → IsResumed end cursor ordinal (c ∷ plan) (suc n) (k ∷ checkpoints)
unfolding chunk_at
IsResumed-cons end cursor ordinal c plan n k checkpoints same (counted, on) =
    let shift : length checkpoints + (ordinal + 1) ≡ suc (length checkpoints) + ordinal =
      omega arith in
    (
      omega (arith, counted),
      rw (same) (
          subst
            (λ m.
              GoesOn end (committed_to c.end checkpoints) m (chunk_at (length checkpoints) plan))
            shift on),
    )

read_checkpoints-IsResumed :
    (identity_sha256 : List ℕ) (step end cursor ordinal : ℕ) (plan : List TimeChunk)
    (directories : List ChunkDirectory) {checkpoints : List Checkpoint}
    → cursor ≤ end
    → IsPlan step end cursor ordinal plan
    → read_checkpoints identity_sha256 ordinal plan directories ≡ ok checkpoints
    → IsResumed end cursor ordinal plan (length directories) checkpoints
unfolding read_checkpoints
read_checkpoints-IsResumed identity_sha256 step end cursor ordinal plan [] {checkpoints} h p r =
    subst (λ cs. IsResumed end cursor ordinal plan 0 cs) (ok-injective r)
      (IsResumed-nil step end cursor ordinal plan h p)
read_checkpoints-IsResumed identity_sha256 step end cursor ordinal [] (d ∷ directories)
      {checkpoints} h p r =
    absurd (ground (arith, r))
read_checkpoints-IsResumed identity_sha256 step end cursor ordinal (c ∷ plan) (d ∷ directories)
      {checkpoints} h (o, s, nonempty, e, p) r =
    elim (Result-cases (read_checkpoint identity_sha256 ordinal c d)) [
      | inl (failure, failed) ↦ absurd (ground (arith, r, failed))
      | inr (k, found) ↦
          elim (Result-cases (read_checkpoints identity_sha256 (ordinal + 1) plan directories)) [
            | inl (failure, failed) ↦ absurd (ground (arith, r, found, failed))
            | inr (rest, read) ↦
                let same : k ∷ rest ≡ checkpoints = ground (arith, r, found, read) in
                let on =
                  read_checkpoints-IsResumed identity_sha256 step end c.end (ordinal + 1) plan
                    directories (ground (arith, e)) p read in
                subst (λ cs. IsResumed end cursor ordinal (c ∷ plan) (suc (length directories)) cs)
                  same
                  (IsResumed-cons end cursor ordinal c plan (length directories) k rest
                    (read_checkpoint-end identity_sha256 ordinal c d found) on)
          ]
    ]

module _ (content_sha256 : List TimeChunk → List ℕ) (identity : RunIdentity)
    (identity_sha256 : List ℕ) (plan : List TimeChunk) (directories : List ChunkDirectory) where
  committed_lem :
      {checkpoints : List Checkpoint}
      → committed content_sha256 identity identity_sha256 plan directories ≡ ok checkpoints
      → read_checkpoints identity_sha256 0 plan directories ≡ ok checkpoints
  unfolding committed
  committed_lem {checkpoints} r = elim (Result-cases (plan_fingerprint content_sha256 plan)) [
    | inl (failure, failed) ↦ absurd (ground (arith, r, failed))
    | inr (fingerprint, found) ↦ ground (arith, r, found)
  ]

  -- When `next_chunk` returns on the plan of a range, the committed chunks are as many as the
  -- directories, and the run goes on without a gap or an overlap: the chunk it names is the one
  -- after them and starts where the last of them ends, or at the range's start when there are none;
  -- it names none only when they reach the range's end.
  pub next_chunk-GoesOn :
      (start end : ℕ) (interval : List ℕ) (overlap : ℕ) (floor : Option ℕ)
      {found : Option TimeChunk}
      → plan_time_chunks start end interval overlap floor ≡ ok plan
      → next_chunk content_sha256 identity identity_sha256 plan directories ≡ ok found
      → (checkpoints : List Checkpoint) × (committed content_sha256 identity identity_sha256 plan
            directories
          ≡ ok checkpoints)
        × (length checkpoints ≡ length directories)
        × GoesOn end (committed_to start checkpoints) (length checkpoints) found
  unfolding next_chunk
  next_chunk-GoesOn start end interval overlap floor {found} planned r =
      elim (Result-cases (committed content_sha256 identity identity_sha256 plan directories)) [
        | inl (failure, failed) ↦ absurd (ground (arith, r, failed))
        | inr (checkpoints, read) ↦
            let (nonempty, seconds, known, p) =
              plan_time_chunks-IsPlan start end interval overlap floor planned in
            let (counted, on) =
              read_checkpoints-IsResumed identity_sha256 (seconds * second) end start 0 plan
                directories (omega (arith, nonempty)) p (committed_lem read) in
            let next : chunk_at (length checkpoints) plan ≡ found = ground (arith, r, read) in
            let none_more : length checkpoints + 0 ≡ length checkpoints = omega arith in
            (
              checkpoints,
              read,
              counted,
              subst (λ c. GoesOn end (committed_to start checkpoints) (length checkpoints) c) next
                  (subst
                    (λ m.
                      GoesOn end (committed_to start checkpoints) m
                        (chunk_at (length checkpoints) plan))
                    none_more on),
            )
      ]
