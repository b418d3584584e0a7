-- ===== src/Events/Result.antt =====
-- What `arbitrate` returns, as a whole.
use bfbt.Base.{
  ℕ, ◌≤◌, ◌<◌, ◌≡◌, ◌⊎◌, inl, inr, true, false, Option, some, List, [], ◌∷◌, arith, ◌==◌,
  Bool-cases, Option-cases, filter, All, All-map, filter-All, IsOrdered,
}
use bfbt.Float.{Float}
use bfbt.Events.Intent.{Arbitrator, Intent, intent_before}
use bfbt.Events.Arbitrate.{has_key, is_cooled, winner_of, is_winner, final_row, decide_groups}
use bfbt.Events.Count.{key_of, decide_rows-map}
use bfbt.Events.Winner.{IsDistinct, winner_of-some}
use bfbt.Events.Groups.{IsDistinct-filter}
use bfbt.Events.Best.{
  winner_of-All, winner_of-first, filter-winner_of, filter-is_winner, filter-is_winner-none,
  All-of_filter, IsOrdered-filter,
}

module _ {F : Type 0} where
  -- The intent is first by priority and then by id.
  abbrev pub Beats : Intent F → Intent F → Type 0
  Beats i j =
      (i.priority < j.priority)
      ⊎ ((i.priority ≡ j.priority) × (i.instruction_id ≤ j.instruction_id))

  -- The accepted intent is eligible, and beats all eligible intents of its fill time and symbol.
  abbrev pub IsBest : List ℕ → List (Intent F) → Intent F → Type 0
  IsBest cooldown rows i =
      (is_cooled cooldown i ≡ false)
      × All (λ j. (has_key (key_of i) j ≡ false) ⊎ ((is_cooled cooldown j ≡ true) ⊎ Beats i j)) rows

  intent_before-Beats :
      (i j : Intent F) → has_key (key_of i) j ≡ true → intent_before i j ≡ true → Beats i j
  unfolding intent_before
  intent_before-Beats i j e h = elim (Bool-cases (i.priority == j.priority)) [
    | inl s ↦ inr (ground (arith, s), ground (arith, s))
    | inr s ↦ inl (ground (arith, s))
  ]

  best_step :
      (cooldown : List ℕ) (k : ℕ × ℕ) (w j : Intent F)
      → has_key k w ≡ true
      → (has_key k j ≡ false) ⊎ ((is_cooled cooldown j ≡ true) ⊎ (intent_before w j ≡ true))
      → (has_key (key_of w) j ≡ false) ⊎ ((is_cooled cooldown j ≡ true) ⊎ Beats w j)
  best_step cooldown k w j keyed (inl e) = inl (ground (arith, e, keyed))
  best_step cooldown k w j keyed (inr (inl e)) = inr (inl e)
  best_step cooldown k w j keyed (inr (inr e)) = elim (Bool-cases (has_key (key_of w) j)) [
    | inl s ↦ inr (inr (intent_before-Beats w j s e))
    | inr s ↦ inl s
  ]

module _ {F : Type 0} ⦃f : Float F⦄ where
  final_row-IsBest :
      (a : Arbitrator) (cooldown : List ℕ) (o : Option (Intent F)) (rows : List (Intent F))
      (w : Intent F)
      → IsBest cooldown rows w
      → IsBest cooldown rows (final_row a cooldown o w)
  unfolding final_row is_cooled
  final_row-IsBest a cooldown o rows w h = elim (Bool-cases (is_winner o w)) [
    | inl e ↦ rw (e) h
    | inr e ↦ rw (e) h
  ]

  winner_of-IsBest :
      (cooldown : List ℕ) (k : ℕ × ℕ) (rows : List (Intent F)) {w : Intent F}
      → IsOrdered intent_before rows
      → winner_of cooldown (filter (has_key k) rows) ≡ some w
      → IsBest cooldown rows w
  winner_of-IsBest cooldown k rows {w} o e =
      let group = filter (has_key k) rows in
      let keyed : has_key k w ≡ true =
        winner_of-All (λ i. has_key k i ≡ true) cooldown group {w = w} (filter-All (has_key k) rows)
          e in
      let first =
        winner_of-first cooldown group {w = w} (IsOrdered-filter intent_before (has_key k) rows o)
          e in
      (
        ground (arith, winner_of-some cooldown group {w = w} e),
        All-map
            (λ j.
              (has_key k j ≡ false) ⊎ ((is_cooled cooldown j ≡ true) ⊎ (intent_before w j ≡ true)))
            (λ j. (has_key (key_of w) j ≡ false) ⊎ ((is_cooled cooldown j ≡ true) ⊎ Beats w j))
            (λ j. best_step cooldown k w j keyed) rows
            (All-of_filter (λ j. (is_cooled cooldown j ≡ true) ⊎ (intent_before w j ≡ true))
              (has_key k) rows first),
      )

  pub decide_groups-IsBest :
      (a : Arbitrator) (cooldown : List ℕ) (keys : List (ℕ × ℕ)) (rows : List (Intent F))
      → IsDistinct rows
      → IsOrdered intent_before rows
      → All (IsBest cooldown rows) (decide_groups a cooldown keys rows).1
  unfolding decide_groups
  decide_groups-IsBest a cooldown [] rows d o = tt
  decide_groups-IsBest a cooldown (k ∷ keys) rows d o =
      let group = filter (has_key k) rows in
      let rest = decide_groups-IsBest a cooldown keys rows d o in
      rw (decide_rows-map a cooldown (winner_of cooldown group) group)
        elim (Option-cases (winner_of cooldown group)) [
          | inl e ↦ rw (e, filter-is_winner-none group) rest
          | inr (w, e) ↦
              rw
                (
                  e,
                  filter-is_winner w group,
                  filter-winner_of cooldown group {w = w} (IsDistinct-filter (has_key k) rows d) e,
                )
                ((
                  final_row-IsBest a cooldown (some w) rows w
                      (winner_of-IsBest cooldown k rows {w = w} o e),
                  rest,
                ))
        ]
