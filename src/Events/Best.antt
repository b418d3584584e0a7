-- ===== src/Events/Best.antt =====
-- The accepted intent of a key is the first of its eligible ones, and all others are set to nothing.
use bfbt.Base.{
  ℕ, ◌≡◌, refl, subst, ◌⊎◌, inl, inr, Bool, true, false, none, some, List, [], ◌∷◌, arith, ==_self,
  Bool-cases, filter, All, All-map, count, All-filter, IsOrdered,
}
use bfbt.Events.Intent.{Intent, intent_before}
use bfbt.Events.Arbitrate.{is_cooled, winner_of, is_winner}
use bfbt.Events.Winner.{has_id, IsDistinct, winner_of-some}

module _ {F : Type 0} where
  pub winner_of-All {κ} :
      (P : Intent F → Type κ) (cooldown : List ℕ) (rows : List (Intent F)) {w : Intent F}
      → All P rows
      → winner_of cooldown rows ≡ some w
      → P w
  unfolding winner_of
  winner_of-All P cooldown [] h e = cc
  winner_of-All P cooldown (i ∷ rows) {w} (h, hs) e = elim (Bool-cases (is_cooled cooldown i)) [
    | inl c ↦ winner_of-All P cooldown rows {w = w} hs (ground (arith, c))
    | inr c ↦ let same : i ≡ w = ground (arith, c) in subst P same h
  ]

  pub intent_before_refl : (i : Intent F) → intent_before i i ≡ true
  unfolding intent_before
  intent_before_refl i = ground arith

  -- What the winner comes before: all that are eligible.
  pub winner_of-first :
      (cooldown : List ℕ) (rows : List (Intent F)) {w : Intent F}
      → IsOrdered intent_before rows
      → winner_of cooldown rows ≡ some w
      → All (λ j. (is_cooled cooldown j ≡ true) ⊎ (intent_before w j ≡ true)) rows
  unfolding winner_of
  winner_of-first cooldown [] h e = tt
  winner_of-first cooldown (i ∷ rows) {w} (h, hs) e = elim (Bool-cases (is_cooled cooldown i)) [
    | inl c ↦ (inl c, winner_of-first cooldown rows {w = w} hs (ground (arith, c)))
    | inr c ↦
        let same : i ≡ w = ground (arith, c) in
        subst
          (λ v. All (λ j. (is_cooled cooldown j ≡ true) ⊎ (intent_before v j ≡ true)) (i ∷ rows))
          same
          (
            inr (intent_before_refl i),
            All-map (λ j. intent_before i j ≡ true)
                (λ j. (is_cooled cooldown j ≡ true) ⊎ (intent_before i j ≡ true)) (λ j k. inr k)
                rows h,
          )
  ]

  count-nil : (p : Intent F → Bool) (rows : List (Intent F)) → count p rows ≡ 0 → filter p rows ≡ []
  count-nil p [] h = refl
  count-nil p (i ∷ rows) h = elim (Bool-cases (p i)) [
    | inl e ↦ absurd (ground (arith, e))
    | inr e ↦ rw (e) (count-nil p rows (ground (arith, e)))
  ]

  -- The winner is the only row that is accepted.
  pub filter-winner_of :
      (cooldown : List ℕ) (rows : List (Intent F)) {w : Intent F}
      → IsDistinct rows
      → winner_of cooldown rows ≡ some w
      → filter (has_id w.instruction_id) rows ≡ w ∷ []
  unfolding winner_of
  filter-winner_of cooldown [] d e = cc
  filter-winner_of cooldown (i ∷ rows) {w} d e = elim (Bool-cases (is_cooled cooldown i)) [
    | inl c ↦
        let e' : winner_of cooldown rows ≡ some w = ground (arith, c) in
        let found = winner_of-some cooldown rows {w = w} e' in
        let other : has_id w.instruction_id i ≡ false = ground (arith, found, d w.instruction_id) in
        rw (other) (filter-winner_of cooldown rows {w = w} (λ n. ground (arith, d n)) e')
    | inr c ↦
        let same : i ≡ w = ground (arith, c) in
        subst (λ v. filter (has_id v.instruction_id) (i ∷ rows) ≡ v ∷ []) same
          (let mine = ==_self i.instruction_id in
            let rest =
              count-nil (has_id i.instruction_id) rows (ground (arith, mine, d i.instruction_id)) in
            rw (mine, rest) refl)
  ]

  pub filter-is_winner :
      (w : Intent F) (rows : List (Intent F))
      → filter (is_winner (some w)) rows ≡ filter (has_id w.instruction_id) rows
  unfolding is_winner
  filter-is_winner w [] = refl
  filter-is_winner w (i ∷ rows) = rw (filter-is_winner w rows) refl

  pub filter-is_winner-none : (rows : List (Intent F)) → filter (is_winner none) rows ≡ []
  unfolding is_winner
  filter-is_winner-none [] = refl
  filter-is_winner-none (i ∷ rows) = filter-is_winner-none rows

  pub All-of_filter {κ} :
      (P : Intent F → Type κ) (p : Intent F → Bool) (rows : List (Intent F))
      → All P (filter p rows)
      → All (λ i. (p i ≡ false) ⊎ P i) rows
  All-of_filter P p [] h = tt
  All-of_filter P p (i ∷ rows) h = elim (Bool-cases (p i)) [
    | inl e ↦
        let both : All P (i ∷ filter p rows) = rw (e) at h in
        (inr both.0, All-of_filter P p rows both.1)
    | inr e ↦ let rest : All P (filter p rows) = rw (e) at h in (inl e, All-of_filter P p rows rest)
  ]

  pub IsOrdered-filter :
      (b : Intent F → Intent F → Bool) (p : Intent F → Bool) (rows : List (Intent F))
      → IsOrdered b rows
      → IsOrdered b (filter p rows)
  IsOrdered-filter b p [] h = tt
  IsOrdered-filter b p (i ∷ rows) (h, hs) = elim (Bool-cases (p i)) [
    | inl e ↦
        rw (IsOrdered, e) ((All-filter (λ j. b i j ≡ true) p rows h, IsOrdered-filter b p rows hs))
    | inr e ↦ rw (e) (IsOrdered-filter b p rows hs)
  ]
