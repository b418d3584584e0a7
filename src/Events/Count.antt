-- ===== src/Events/Count.antt =====
-- What the group loop keeps: every intent comes back once, and a key has one accepted intent.
use bfbt.Base.{
  ℕ, ◌≡◌, refl, inl, inr, Bool, true, ◌&&◌, Option, List, [], ◌∷◌, map, arith, ◌==◌, if◌then◌else◌,
  Bool-cases, filter, any, count,
}
use bfbt.Float.{Float}
use bfbt.Events.Intent.{Arbitrator, Intent}
use bfbt.Events.Arbitrate.{has_key, keys_from, is_winner, trace_row, final_row, decide_rows}

abbrev pub same_key : ℕ × ℕ → ℕ × ℕ → Bool
same_key k k' = (k'.0 == k.0) && (k'.1 == k.1)

pub same_key→eq : (k k' : ℕ × ℕ) → same_key k k' ≡ true → k ≡ k'
same_key→eq (a, b) (c, d) h = let e : a ≡ c = ground arith in let e' : b ≡ d = ground arith in cc

module _ {F : Type 0} where
  abbrev pub key_of : Intent F → ℕ × ℕ
  key_of i = (i.fill_time, i.symbol)

  any-same_key :
      (k : ℕ × ℕ) (i : Intent F) (seen : List (ℕ × ℕ))
      → has_key k i ≡ true
      → any (λ k'. has_key k' i) seen ≡ any (same_key k) seen
  any-same_key k i [] h = refl
  any-same_key k i (k' ∷ seen) h = ground (arith, any-same_key k i seen)

  -- The keys are those of the rows that are not seen, each once.
  pub count-keys_from :
      (k : ℕ × ℕ) (seen : List (ℕ × ℕ)) (rows : List (Intent F))
      → count (same_key k) (keys_from seen rows)
        ≡ (if any (same_key k) seen then 0 else if any (has_key k) rows then 1 else 0)
  unfolding keys_from
  count-keys_from k seen [] = ground arith
  count-keys_from k seen (i ∷ rows) = elim (Bool-cases (has_key k i)) [
    | inl e ↦ ground (
      arith,
      e,
      any-same_key k i seen e,
      count-keys_from k seen rows,
      count-keys_from k (key_of i ∷ seen) rows,
    )
    | inr e ↦
        ground (arith, e, count-keys_from k seen rows, count-keys_from k (key_of i ∷ seen) rows)
  ]

module _ {F : Type 0} ⦃f : Float F⦄ where
  pub final_row-same :
      (a : Arbitrator) (cooldown : List ℕ) (w : Option (Intent F)) (i : Intent F)
      → ((final_row a cooldown w i).fill_time ≡ i.fill_time)
        × ((final_row a cooldown w i).symbol ≡ i.symbol)
        × ((final_row a cooldown w i).instruction_id ≡ i.instruction_id)
        × ((final_row a cooldown w i).priority ≡ i.priority)
  unfolding final_row
  final_row-same a cooldown w i = elim (Bool-cases (is_winner w i)) [
    | inl e ↦ rw (e) (refl, refl, refl, refl)
    | inr e ↦ rw (e) (refl, refl, refl, refl)
  ]

  -- The row loop is a map, and its accepted rows are those of the winner's id.
  pub decide_rows-map :
      (a : Arbitrator) (cooldown : List ℕ) (w : Option (Intent F)) (rows : List (Intent F))
      → decide_rows a cooldown w rows ≡ (
        map (final_row a cooldown w) rows,
        map (final_row a cooldown w) (filter (is_winner w) rows),
        map (trace_row cooldown w) rows,
      )
  unfolding decide_rows
  decide_rows-map a cooldown w [] = refl
  decide_rows-map a cooldown w (i ∷ rows) = elim (Bool-cases (is_winner w i)) [
    | inl e ↦ simp (e, decide_rows-map a cooldown w rows)
    | inr e ↦ simp (e, decide_rows-map a cooldown w rows)
  ]
