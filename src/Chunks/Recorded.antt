-- ===== src/Chunks/Recorded.antt =====
-- What a transaction records of its files is what they are, unless a path is written twice.
use bfbt.Base.{
  ℕ, ◌+◌, ◌≤◌, ◌++◌, ◌≡◌, refl, ◌∙◌, subst, Bool, true, false, Option, some, List, [], ◌∷◌, arith,
  if◌then◌else◌, count, count-append, All, All-map, All-both, All-append, inl, inr, ◌⊎◌, Bool-cases,
}
use bfbt.Exec.{ok, err}
use bfbt.Exec.Laws.{Result-cases, ok-injective}
use bfbt.Chunks.Workspace.{CheckpointFile, DiskFile, same_text, is_intact, has_rows}
use bfbt.Chunks.Transaction.{
  Transaction, put, recorded, write_state, write_output, Write, write, write_all, has_path,
  TransactionError, is_safe_name, state_folder, output_folder, json_suffix, parquet_suffix,
}

pub same_text_self : (x : List ℕ) → same_text x x ≡ true
same_text_self [] = refl
same_text_self (a ∷ x) = ground (arith, same_text_self x)

pub same_text-eq : (x y : List ℕ) → same_text x y ≡ true → x ≡ y
same_text-eq [] [] h = refl
same_text-eq [] (b ∷ y) h = absurd (ground (arith, h))
same_text-eq (a ∷ x) [] h = absurd (ground (arith, h))
same_text-eq (a ∷ x) (b ∷ y) h =
    let e = same_text-eq x y (ground (arith, h)) in
    let f : a ≡ b = ground (arith, h) in rw (e, f) refl

-- The file that a record names is there, with the recorded size, digest and rows.
abbrev pub IsRecorded : (List ℕ → Option DiskFile) → CheckpointFile → Type 0
IsRecorded file i =
    (d : DiskFile) × (file i.relative_path ≡ some d)
    × (is_intact i d ≡ true)
    × (has_rows i.row_count d.rows ≡ true)

-- Each record is true of its file, or its path is recorded twice.
abbrev pub AreRecorded :
    (List ℕ → Option DiskFile) → List CheckpointFile → List CheckpointFile → Type 0
AreRecorded file items recorded_items =
    All (λ i. (2 ≤ count (has_path i.relative_path) items) ⊎ IsRecorded file i) recorded_items

recorded-IsRecorded :
    (is_parquet : Bool) (path : List ℕ) (d : DiskFile) (file : List ℕ → Option DiskFile)
    → IsRecorded (put path d file) (recorded is_parquet path d)
unfolding recorded
recorded-IsRecorded true path d file =
    (d, ground (arith, same_text_self path), ground (arith, same_text_self d.sha256), ground arith)
recorded-IsRecorded false path d file =
    (d, ground (arith, same_text_self path), ground (arith, same_text_self d.sha256), ground arith)

-- Every member has its own path.
counts_itself :
    (items : List CheckpointFile) → All (λ i. 1 ≤ count (has_path i.relative_path) items) items
counts_itself [] = tt
counts_itself (x ∷ items) = (
  ground (arith, same_text_self x.relative_path),
  All-map (λ i. 1 ≤ count (has_path i.relative_path) items)
      (λ i. 1 ≤ count (has_path i.relative_path) (x ∷ items)) (λ i h. ground (arith, h)) items
      (counts_itself items),
)

-- Records stay true, or become doubled, when one file is written and recorded.
module _ (file : List ℕ → Option DiskFile) (path : List ℕ) (d : DiskFile)
    (items more : List CheckpointFile)
    (grows : (q : List ℕ)
      → count (has_path q) more
        ≡ count (has_path q) items + (if same_text q path then 1 else 0)) where
  record-kept :
      (i : CheckpointFile)
      → ((2 ≤ count (has_path i.relative_path) items) ⊎ IsRecorded file i)
        × (1 ≤ count (has_path i.relative_path) items)
      → (2 ≤ count (has_path i.relative_path) more) ⊎ IsRecorded (put path d file) i
  record-kept i (inl twice, once) = inl (ground (arith, twice, grows i.relative_path))
  record-kept i (inr (old, there, whole, rows), once) =
      elim (Bool-cases (same_text i.relative_path path)) [
        | inl same ↦ inl (ground (arith, once, same, grows i.relative_path))
        | inr other ↦ inr (old, ground (arith, other, there), whole, rows)
      ]

  AreRecorded-kept :
      (rows : List CheckpointFile)
      → AreRecorded file items rows
      → All (λ i. 1 ≤ count (has_path i.relative_path) items) rows
      → AreRecorded (put path d file) more rows
  AreRecorded-kept rows h m =
      All-map
        (λ i.
          ((2 ≤ count (has_path i.relative_path) items) ⊎ IsRecorded file i)
          × (1 ≤ count (has_path i.relative_path) items))
        (λ i. (2 ≤ count (has_path i.relative_path) more) ⊎ IsRecorded (put path d file) i)
        record-kept rows
        (All-both (λ i. (2 ≤ count (has_path i.relative_path) items) ⊎ IsRecorded file i)
          (λ i. 1 ≤ count (has_path i.relative_path) items) rows h m)

-- Both lists of a transaction, told of all that it records.
abbrev pub IsFaithful : Transaction → Type 0
IsFaithful s =
    AreRecorded s.file (s.state_files ++ s.output_parts) s.state_files
    × AreRecorded s.file (s.state_files ++ s.output_parts) s.output_parts

counts-left :
    (xs ys : List CheckpointFile) → All (λ i. 1 ≤ count (has_path i.relative_path) (xs ++ ys)) xs
counts-left xs ys =
    All-map (λ i. 1 ≤ count (has_path i.relative_path) xs)
      (λ i. 1 ≤ count (has_path i.relative_path) (xs ++ ys))
      (λ i h. ground (arith, h, count-append (has_path i.relative_path) xs ys)) xs
      (counts_itself xs)

counts-right :
    (xs ys : List CheckpointFile) → All (λ i. 1 ≤ count (has_path i.relative_path) (xs ++ ys)) ys
counts-right xs ys =
    All-map (λ i. 1 ≤ count (has_path i.relative_path) ys)
      (λ i. 1 ≤ count (has_path i.relative_path) (xs ++ ys))
      (λ i h. ground (arith, h, count-append (has_path i.relative_path) xs ys)) ys
      (counts_itself ys)

grows_left :
    (is_parquet : Bool) (path : List ℕ) (d : DiskFile) (xs ys : List CheckpointFile) (q : List ℕ)
    → count (has_path q) ((xs ++ (recorded is_parquet path d ∷ [])) ++ ys)
      ≡ count (has_path q) (xs ++ ys) + (if same_text q path then 1 else 0)
unfolding recorded
grows_left is_parquet path d xs ys q =
    let r = recorded is_parquet path d in
    ground (
      arith,
      count-append (has_path q) (xs ++ (r ∷ [])) ys,
      count-append (has_path q) xs (r ∷ []),
      count-append (has_path q) xs ys,
    )

write_state-IsFaithful :
    (is_parquet : Bool) (path : List ℕ) (d : DiskFile) (s : Transaction)
    → IsFaithful s
    → IsFaithful (write_state is_parquet path d s)
unfolding write_state
write_state-IsFaithful is_parquet path d s (h, k) =
    let r = recorded is_parquet path d in
    let xs = s.state_files in
    let ys = s.output_parts in
    let more = (xs ++ (r ∷ [])) ++ ys in
    let grows = grows_left is_parquet path d xs ys in
    (
      All-append
          (λ i. (2 ≤ count (has_path i.relative_path) more) ⊎ IsRecorded (put path d s.file) i) xs
          (r ∷ []) (AreRecorded-kept s.file path d (xs ++ ys) more grows xs h (counts-left xs ys))
          (inr (recorded-IsRecorded is_parquet path d s.file), tt),
      AreRecorded-kept s.file path d (xs ++ ys) more grows ys k (counts-right xs ys),
    )

grows_right :
    (path : List ℕ) (d : DiskFile) (xs ys : List CheckpointFile) (q : List ℕ)
    → count (has_path q) (xs ++ (ys ++ (recorded true path d ∷ [])))
      ≡ count (has_path q) (xs ++ ys) + (if same_text q path then 1 else 0)
unfolding recorded
grows_right path d xs ys q =
    let r = recorded true path d in
    ground (
      arith,
      count-append (has_path q) xs (ys ++ (r ∷ [])),
      count-append (has_path q) ys (r ∷ []),
      count-append (has_path q) xs ys,
    )

write_output-IsFaithful :
    (path : List ℕ) (d : DiskFile) (s : Transaction)
    → IsFaithful s
    → IsFaithful (write_output path d s)
unfolding write_output
write_output-IsFaithful path d s (h, k) =
    let r = recorded true path d in
    let xs = s.state_files in
    let ys = s.output_parts in
    let more = xs ++ (ys ++ (r ∷ [])) in
    let grows = grows_right path d xs ys in
    (
      AreRecorded-kept s.file path d (xs ++ ys) more grows xs h (counts-left xs ys),
      All-append
          (λ i. (2 ≤ count (has_path i.relative_path) more) ⊎ IsRecorded (put path d s.file) i) ys
          (r ∷ []) (AreRecorded-kept s.file path d (xs ++ ys) more grows ys k (counts-right xs ys))
          (inr (recorded-IsRecorded true path d s.file), tt),
    )

-- A transaction goes on from another.
abbrev pub IsWritten : Transaction → Transaction → Type 0
IsWritten s t = IsFaithful t × (t.chunk ≡ s.chunk) × (t.is_committed ≡ s.is_committed)

guarded-IsWritten :
    (c : Bool) (s x : Transaction) {t : Transaction}
    → IsWritten s x
    → (if c then ok x else err TransactionError.unsafe_name) ≡ ok t
    → IsWritten s t
guarded-IsWritten true s x h e = subst (λ y. IsWritten s y) (ok-injective e) h
guarded-IsWritten false s x h e = absurd (ground (arith, e))

write-IsWritten :
    (w : Write) (s : Transaction) {t : Transaction}
    → IsFaithful s
    → write w s ≡ ok t
    → IsWritten s t
unfolding write write_state write_output
write-IsWritten (Write.state_json name d) s {t} h e =
    guarded-IsWritten (is_safe_name name) s _
      (write_state-IsFaithful false (state_folder ++ (name ++ json_suffix)) d s h, refl, refl) e
write-IsWritten (Write.state_frame name d) s {t} h e =
    guarded-IsWritten (is_safe_name name) s _
      (write_state-IsFaithful true (state_folder ++ (name ++ parquet_suffix)) d s h, refl, refl) e
write-IsWritten (Write.output_frame name d) s {t} h e =
    guarded-IsWritten (is_safe_name name) s _
      (write_output-IsFaithful (output_folder ++ (name ++ parquet_suffix)) d s h, refl, refl) e

-- All writes of a chunk.
pub write_all-IsWritten :
    (writes : List Write) (s : Transaction) {t : Transaction}
    → IsFaithful s
    → write_all writes s ≡ ok t
    → IsWritten s t
unfolding write_all
write_all-IsWritten [] s h e = subst (λ y. IsWritten s y) (ok-injective e) (h, refl, refl)
write_all-IsWritten (w ∷ writes) s {t} h e = elim (Result-cases (write w s)) [
  | inl (failure, failed) ↦ absurd (ground (arith, e, failed))
  | inr (u, found) ↦
      let one = write-IsWritten w s {t = u} h found in
      let rest = write_all-IsWritten writes u {t = t} one.0 (ground (arith, e, found)) in
      (rest.0, rest.1 ∙ one.1, rest.2 ∙ one.2)
]
