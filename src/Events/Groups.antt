-- ===== src/Events/Groups.antt =====
-- The group loop, counted: how often each key and each id comes out of it.
use bfbt.Base.{
  ℕ, ◌+◌, ◌≤◌, ◌≡◌, refl, subst, inl, inr, Bool, true, false, ◌&&◌, Option, List, [], ◌∷◌, map,
  arith, if◌then◌else◌, Bool-cases, filter, any, All, count, count-append, count-filter, count-map,
}
use bfbt.Float.{Float}
use bfbt.Events.Intent.{Arbitrator, Intent}
use bfbt.Events.Arbitrate.{
  Trace, has_key, keys_from, winner_of, is_winner, trace_row, final_row, decide_groups,
}
use bfbt.Events.Count.{
  same_key, same_key→eq, key_of, count-keys_from, final_row-same, decide_rows-map,
}
use bfbt.Events.Winner.{has_id, IsDistinct, is_eligible, count-winner_of}

module _ {F : Type 0} where
  count-group :
      (k : ℕ × ℕ) (p : Intent F → Bool) (rows : List (Intent F))
      → count (has_key k) (filter p (filter (has_key k) rows)) ≡ count p (filter (has_key k) rows)
  count-group k p [] = refl
  count-group k p (i ∷ rows) = ground (arith, count-group k p rows)

  count-other_group :
      (k k' : ℕ × ℕ) (p : Intent F → Bool) (rows : List (Intent F))
      → same_key k k' ≡ false
      → count (has_key k) (filter p (filter (has_key k') rows)) ≡ 0
  count-other_group k k' p [] h = refl
  count-other_group k k' p (i ∷ rows) h = ground (arith, count-other_group k k' p rows h)

  any-group :
      (k : ℕ × ℕ) (p : Intent F → Bool) (rows : List (Intent F))
      → any p (filter (has_key k) rows) ≡ any (λ i. has_key k i && p i) rows
  any-group k p [] = refl
  any-group k p (i ∷ rows) = ground (arith, any-group k p rows)

  any-has_key :
      (k : ℕ × ℕ) (p : Intent F → Bool) (rows : List (Intent F))
      → any (has_key k) rows ≡ false
      → any (λ i. has_key k i && p i) rows ≡ false
  any-has_key k p [] h = refl
  any-has_key k p (i ∷ rows) h = ground (arith, any-has_key k p rows)

  pub IsDistinct-filter :
      (p : Intent F → Bool) (rows : List (Intent F)) → IsDistinct rows → IsDistinct (filter p rows)
  IsDistinct-filter p rows d n = omega (arith, d n, count-filter (has_id n) p rows)

  -- How often the rows that pass `p` are in the groups of `keys`.
  abbrev pub total : (Intent F → Bool) → List (ℕ × ℕ) → List (Intent F) → ℕ
  total p [] rows = 0
  total p (k ∷ keys) rows = count p (filter (has_key k) rows) + total p keys rows

  total-nil : (p : Intent F → Bool) (keys : List (ℕ × ℕ)) → total p keys [] ≡ 0
  total-nil p [] = refl
  total-nil p (k ∷ keys) = omega (arith, total-nil p keys)

  total-cons :
      (p : Intent F → Bool) (keys : List (ℕ × ℕ)) (i : Intent F) (rows : List (Intent F))
      → total p keys (i ∷ rows)
        ≡ (if p i then count (same_key (key_of i)) keys else 0) + total p keys rows
  total-cons p [] i rows = ground arith
  total-cons p (k ∷ keys) i rows = ground (arith, total-cons p keys i rows)

  pub total-keys :
      (p : Intent F → Bool) (keys : List (ℕ × ℕ)) (rows : List (Intent F))
      → All (λ i. count (same_key (key_of i)) keys ≡ 1) rows
      → total p keys rows ≡ count p rows
  total-keys p keys [] h = total-nil p keys
  total-keys p keys (i ∷ rows) (h, hs) =
      ground (arith, h, total-cons p keys i rows, total-keys p keys rows hs)

module _ {F : Type 0} ⦃f : Float F⦄ (a : Arbitrator) (cooldown : List ℕ) where
  -- What a test that final rows keep counts in the output of the groups.
  pub count-decide_groups :
      (p : Intent F → Bool)
      → ((w : Option (Intent F)) (i : Intent F) → p (final_row a cooldown w i) ≡ p i)
      → (keys : List (ℕ × ℕ)) (rows : List (Intent F))
      → count p (decide_groups a cooldown keys rows).0 ≡ total p keys rows
  unfolding decide_groups
  count-decide_groups p e [] rows = refl
  count-decide_groups p e (k ∷ keys) rows =
      let group = filter (has_key k) rows in
      let w = winner_of cooldown group in
      rw (decide_rows-map a cooldown w group) (
        omega (
          arith,
          count-append p (map (final_row a cooldown w) group)
              (decide_groups a cooldown keys rows).0,
          count-map p p (final_row a cooldown w) (e w) group,
          count-decide_groups p e keys rows,
        ))

  -- A test that holds of a trace row when another holds of its intent.
  pub count-trace :
      (p : Trace → Bool) (q : Intent F → Bool)
      → ((w : Option (Intent F)) (i : Intent F) → p (trace_row cooldown w i) ≡ q i)
      → (keys : List (ℕ × ℕ)) (rows : List (Intent F))
      → count p (decide_groups a cooldown keys rows).2 ≡ total q keys rows
  unfolding decide_groups
  count-trace p q e [] rows = refl
  count-trace p q e (k ∷ keys) rows =
      let group = filter (has_key k) rows in
      let w = winner_of cooldown group in
      rw (decide_rows-map a cooldown w group) (
        omega (
          arith,
          count-append p (map (trace_row cooldown w) group) (decide_groups a cooldown keys rows).2,
          count-map p q (trace_row cooldown w) (e w) group,
          count-trace p q e keys rows,
        ))

  final_row-has_key :
      (k : ℕ × ℕ) (w : Option (Intent F)) (i : Intent F)
      → has_key k (final_row a cooldown w i) ≡ has_key k i
  final_row-has_key k w i =
      let same = final_row-same a cooldown w i in ground (arith, same.0, same.1)

  -- The number of winners of a key's group.
  abbrev wins : ℕ × ℕ → List (Intent F) → ℕ
  wins k rows =
      count (is_winner (winner_of cooldown (filter (has_key k) rows))) (filter (has_key k) rows)

  -- The accepted intents of a key, over the keys.
  abbrev wins_in : ℕ × ℕ → List (ℕ × ℕ) → List (Intent F) → ℕ
  wins_in k [] rows = 0
  wins_in k (k' ∷ keys) rows =
      if same_key k k' then wins k rows + wins_in k keys rows else wins_in k keys rows

  wins_in-none :
      (k : ℕ × ℕ) (keys : List (ℕ × ℕ)) (rows : List (Intent F))
      → count (same_key k) keys ≡ 0
      → wins_in k keys rows ≡ 0
  wins_in-none k [] rows h = refl
  wins_in-none k (k' ∷ keys) rows h = ground (arith, wins_in-none k keys rows)

  wins_in-one :
      (k : ℕ × ℕ) (keys : List (ℕ × ℕ)) (rows : List (Intent F))
      → count (same_key k) keys ≡ 1
      → wins_in k keys rows ≡ wins k rows
  wins_in-one k [] rows h = absurd (ground arith)
  wins_in-one k (k' ∷ keys) rows h =
      ground (arith, wins_in-none k keys rows, wins_in-one k keys rows)

  count-accepted :
      (k : ℕ × ℕ) (keys : List (ℕ × ℕ)) (rows : List (Intent F))
      → count (has_key k) (decide_groups a cooldown keys rows).1 ≡ wins_in k keys rows
  unfolding decide_groups
  count-accepted k [] rows = refl
  count-accepted k (k' ∷ keys) rows =
      let group = filter (has_key k') rows in
      let w = winner_of cooldown group in
      let rest = count-accepted k keys rows in
      let split =
        count-append (has_key k) (map (final_row a cooldown w) (filter (is_winner w) group))
          (decide_groups a cooldown keys rows).1 in
      let mapped =
        count-map (has_key k) (has_key k) (final_row a cooldown w) (final_row-has_key k w)
          (filter (is_winner w) group) in
      rw (decide_rows-map a cooldown w group) elim (Bool-cases (same_key k k')) [
        | inl e ↦
            let here : count (has_key k) (filter (is_winner w) group) ≡ wins k rows =
              subst
                (λ j.
                  count (has_key k) (
                    filter (is_winner (winner_of cooldown (filter (has_key j) rows)))
                      (filter (has_key j) rows))
                  ≡ wins k rows)
                (same_key→eq k k' e)
                (count-group k (is_winner (winner_of cooldown (filter (has_key k) rows))) rows) in
            rw (e) omega (arith, here, split, mapped, rest)
        | inr e ↦
            rw (e) omega (arith, count-other_group k k' (is_winner w) rows e, split, mapped, rest)
      ]

  pub count-accepted_keys :
      (k : ℕ × ℕ) (rows : List (Intent F))
      → IsDistinct rows
      → count (has_key k) (decide_groups a cooldown (keys_from [] rows) rows).1
        ≡ (if any (λ i. has_key k i && is_eligible cooldown i) rows then 1 else 0)
  count-accepted_keys k rows d =
      let group = filter (has_key k) rows in
      let one = count-winner_of cooldown group (IsDistinct-filter (has_key k) rows d) in
      let same = any-group k (is_eligible cooldown) rows in
      elim (Bool-cases (any (has_key k) rows)) [
        | inl e ↦
            let keys = count-keys_from k [] rows in
            let found = wins_in-one k (keys_from [] rows) rows (ground (arith, e, keys)) in
            ground (arith, found, one, same, count-accepted k (keys_from [] rows) rows)
        | inr e ↦
            let keys = count-keys_from k [] rows in
            let found = wins_in-none k (keys_from [] rows) rows (ground (arith, e, keys)) in
            let none_eligible = any-has_key k (is_eligible cooldown) rows e in
            ground (arith, found, none_eligible, count-accepted k (keys_from [] rows) rows)
      ]

  pub count_all-accepted :
      (keys : List (ℕ × ℕ)) (rows : List (Intent F))
      → count (λ _. true) (decide_groups a cooldown keys rows).1 ≤ total (λ _. true) keys rows
  unfolding decide_groups
  count_all-accepted [] rows = omega arith
  count_all-accepted (k ∷ keys) rows =
      let group = filter (has_key k) rows in
      let w = winner_of cooldown group in
      rw (decide_rows-map a cooldown w group) (
        omega (
          arith,
          count-append (λ _. true) (map (final_row a cooldown w) (filter (is_winner w) group))
              (decide_groups a cooldown keys rows).1,
          count-map (λ _. true) (λ _. true) (final_row a cooldown w) (λ _. refl)
              (filter (is_winner w) group),
          count-filter (λ _. true) (is_winner w) group,
          count_all-accepted keys rows,
        ))
