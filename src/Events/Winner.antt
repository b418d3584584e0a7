-- ===== src/Events/Winner.antt =====
-- One accepted intent for each key that has an eligible one.
use bfbt.Base.{
  ℕ, ◌≤◌, ◌≡◌, refl, subst, inl, inr, Bool, true, false, not, none, some, List, [], ◌∷◌, arith,
  ◌==◌, if◌then◌else◌, ==_self, Bool-cases, Option-cases, any, count,
}
use bfbt.Events.Intent.{Intent}
use bfbt.Events.Arbitrate.{is_cooled, winner_of, is_winner}

module _ {F : Type 0} where
  abbrev pub has_id : ℕ → Intent F → Bool
  has_id n i = i.instruction_id == n

  -- No two intents have one id.
  abbrev pub IsDistinct : List (Intent F) → Type 0
  IsDistinct rows = (n : ℕ) → count (has_id n) rows ≤ 1

  abbrev pub is_eligible : List ℕ → Intent F → Bool
  is_eligible cooldown i = not (is_cooled cooldown i)

  pub winner_of-some :
      (cooldown : List ℕ) (rows : List (Intent F)) {w : Intent F}
      → winner_of cooldown rows ≡ some w
      → (any (is_eligible cooldown) rows ≡ true)
        × (is_eligible cooldown w ≡ true)
        × (1 ≤ count (has_id w.instruction_id) rows)
  unfolding winner_of
  winner_of-some cooldown [] h = cc
  winner_of-some cooldown (i ∷ rows) {w} h = elim (Bool-cases (is_cooled cooldown i)) [
    | inl e ↦ ground (arith, e, winner_of-some cooldown rows {w = w})
    | inr e ↦
        let same : i ≡ w = ground (arith, e) in
        subst
          (λ v.
            (any (is_eligible cooldown) (i ∷ rows) ≡ true)
            × (is_eligible cooldown v ≡ true)
            × (1 ≤ count (has_id v.instruction_id) (i ∷ rows)))
          same (ground (arith, e), ground (arith, e), ground (arith, ==_self i.instruction_id))
  ]

  pub winner_of-none :
      (cooldown : List ℕ) (rows : List (Intent F))
      → winner_of cooldown rows ≡ none
      → any (is_eligible cooldown) rows ≡ false
  unfolding winner_of
  winner_of-none cooldown [] h = refl
  winner_of-none cooldown (i ∷ rows) h = ground (arith, winner_of-none cooldown rows)

  count-none : (rows : List (Intent F)) → count (is_winner none) rows ≡ 0
  unfolding is_winner
  count-none [] = refl
  count-none (i ∷ rows) = count-none rows

  count-is_winner :
      (w : Intent F) (rows : List (Intent F))
      → count (is_winner (some w)) rows ≡ count (has_id w.instruction_id) rows
  unfolding is_winner
  count-is_winner w [] = refl
  count-is_winner w (i ∷ rows) = ground (arith, count-is_winner w rows)

  -- A group has one winner if it has an eligible intent.
  pub count-winner_of :
      (cooldown : List ℕ) (rows : List (Intent F))
      → IsDistinct rows
      → count (is_winner (winner_of cooldown rows)) rows
        ≡ (if any (is_eligible cooldown) rows then 1 else 0)
  count-winner_of cooldown rows d = elim (Option-cases (winner_of cooldown rows)) [
    | inl e ↦ rw (e, winner_of-none cooldown rows e) (count-none rows)
    | inr (w, e) ↦
        let found = winner_of-some cooldown rows e in
        rw (e, found.0) (ground (arith, count-is_winner w rows, found, d w.instruction_id))
  ]
