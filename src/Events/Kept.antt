-- ===== src/Events/Kept.antt =====
-- The groups lose no intent and invent none.
use bfbt.Base.{
  ℕ, ◌≤◌, ◌≡◌, refl, ap, ◌∙◌, Bool, true, Option, List, [], ◌∷◌, arith, ◌==◌, ==_self, length, any,
  sort_by, All, All-map, count, count-sort_by,
}
use bfbt.Float.{Float}
use bfbt.Events.Intent.{Arbitrator, Intent, intent_before}
use bfbt.Events.Arbitrate.{
  has_key, keys_from, trace_row, instruction_before, trace_before, final_row, decide_groups,
  arbitrate_rows,
}
use bfbt.Events.Count.{same_key, key_of, count-keys_from, final_row-same}
use bfbt.Events.Winner.{has_id}
use bfbt.Events.Groups.{total, total-keys, count-decide_groups, count-trace, count_all-accepted}
use bfbt.Events.Arbitrated.{has_trace_id, count_all}

module _ {F : Type 0} where
  any_self : (rows : List (Intent F)) → All (λ i. any (has_key (key_of i)) rows ≡ true) rows
  any_self [] = tt
  any_self (i ∷ rows) = (
    ground (arith, ==_self i.fill_time, ==_self i.symbol),
    All-map (λ j. any (has_key (key_of j)) rows ≡ true)
        (λ j. any (has_key (key_of j)) (i ∷ rows) ≡ true) (λ j h. ground (arith, h)) rows
        (any_self rows),
  )

  -- Every row is in exactly one of the groups.
  keys_from-once :
      (rows : List (Intent F)) → All (λ i. count (same_key (key_of i)) (keys_from [] rows) ≡ 1) rows
  keys_from-once rows =
      All-map (λ i. any (has_key (key_of i)) rows ≡ true)
        (λ i. count (same_key (key_of i)) (keys_from [] rows) ≡ 1)
        (λ i h. ground (arith, h, count-keys_from (key_of i) [] rows)) rows (any_self rows)

  pub total-keys_from :
      (p : Intent F → Bool) (rows : List (Intent F))
      → total p (keys_from [] rows) rows ≡ count p rows
  total-keys_from p rows = total-keys p (keys_from [] rows) rows (keys_from-once rows)

module _ {F : Type 0} ⦃f : Float F⦄ (a : Arbitrator) (cooldown : List ℕ)
    (rows : List (Intent F)) where
  final_row-has_id :
      (n : ℕ) (w : Option (Intent F)) (i : Intent F)
      → has_id n (final_row a cooldown w i) ≡ has_id n i
  final_row-has_id n w i = ap (λ m. m == n) (final_row-same a cooldown w i).2

  trace_row-has_id :
      (n : ℕ) (w : Option (Intent F)) (i : Intent F)
      → has_trace_id n (trace_row cooldown w i) ≡ has_id n i
  unfolding trace_row
  trace_row-has_id n w i = refl

  pub arbitrate_rows-ids :
      (n : ℕ)
      → (count (has_id n) (arbitrate_rows a cooldown rows).instructions ≡ count (has_id n) rows)
        × (count (has_trace_id n) (arbitrate_rows a cooldown rows).trace ≡ count (has_id n) rows)
  unfolding arbitrate_rows
  arbitrate_rows-ids n =
      let keys = keys_from [] rows in
      let groups = decide_groups a cooldown keys rows in
      let kept = total-keys_from (has_id n) rows in
      (
        count-sort_by (has_id n) instruction_before groups.0
            ∙ count-decide_groups a cooldown (has_id n) (final_row-has_id n) keys rows
            ∙ kept,
        count-sort_by (has_trace_id n) trace_before groups.2
            ∙ count-trace a cooldown (has_trace_id n) (has_id n) (trace_row-has_id n) keys rows
            ∙ kept,
      )

  pub arbitrate_rows-counts :
      (length (arbitrate_rows a cooldown rows).instructions ≡ length rows)
      × (length (arbitrate_rows a cooldown rows).accepted_intents ≤ length rows)
  unfolding arbitrate_rows
  arbitrate_rows-counts =
      let keys = keys_from [] rows in
      let groups = decide_groups a cooldown keys rows in
      let kept = total-keys_from (λ _. true) rows in
      let all = count_all rows in
      (
        omega (
          arith,
          count_all (sort_by instruction_before groups.0),
          count-sort_by (λ _. true) instruction_before groups.0,
          count-decide_groups a cooldown (λ _. true) (λ w i. refl) keys rows,
          kept,
          all,
        ),
        omega (
          arith,
          count_all (sort_by intent_before groups.1),
          count-sort_by (λ _. true) intent_before groups.1,
          count_all-accepted a cooldown keys rows,
          kept,
          all,
        ),
      )
