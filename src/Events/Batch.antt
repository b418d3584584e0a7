-- ===== src/Events/Batch.antt =====
-- `arbitrate` as a whole, from the raw intents to the batch.
use bfbt.Base.{
  ℕ, ◌+◌, ◌≡◌, refl, ◌∙◌, inl, inr, Bool, true, ◌&&◌, some, List, [], arith, if◌then◌else◌, length,
  any, sort_by, All, All-map, count, count-sort_by, All-sort_by,
}
use bfbt.Exec.{ok}
use bfbt.Float.{Float}
use bfbt.Events.Intent.{Arbitrator, RawIntent, Intent, intent_before, normalize}
use bfbt.Events.Arbitrate.{
  ArbitrationBatch, has_key, keys_from, instruction_before, decide_groups, arbitrate_rows,
  arbitrate,
}
use bfbt.Events.Winner.{has_id, IsDistinct, is_eligible}
use bfbt.Events.Normal.{normalize-IsNormal}
use bfbt.Events.Groups.{count-accepted_keys}
use bfbt.Events.Result.{IsBest, decide_groups-IsBest}
use bfbt.Events.Arbitrated.{has_trace_id, IsSettled, decide_groups-IsSettled}
use bfbt.Events.Kept.{arbitrate_rows-ids, arbitrate_rows-counts}

IsSettled-sorted :
    {F : Type 0} ⦃f : Float F⦄ (i : Intent F) (chosen : List (Intent F))
    → IsSettled chosen i
    → IsSettled (sort_by intent_before chosen) i
IsSettled-sorted i chosen (inl h) =
    inl (omega (arith, h, count-sort_by (has_id i.instruction_id) intent_before chosen))
IsSettled-sorted i chosen (inr h) = inr h

module _ {F : Type 0} ⦃f : Float F⦄ (a : Arbitrator) (cooldown : List ℕ) (well_typed : Bool)
    (raw : List (RawIntent F)) {rows : List (Intent F)}
    (normal : normalize a true well_typed (some raw) ≡ ok rows) where
  arbitrate-rows : arbitrate a cooldown well_typed (some raw) ≡ ok (arbitrate_rows a cooldown rows)
  unfolding arbitrate
  arbitrate-rows = rw (arbitrate, normal) refl

  distinct : IsDistinct rows
  distinct = (normalize-IsNormal a true well_typed raw normal).2

  -- When the intents pass `normalize`, `arbitrate` returns a batch that accepts exactly one intent
  -- for each fill time and symbol that has an intent no cooldown forbids, and none for any other.
  pub arbitrate_one_winner :
      (batch : ArbitrationBatch F) × (arbitrate a cooldown well_typed (some raw) ≡ ok batch)
      × ((k : ℕ × ℕ)
          → count (has_key k) batch.accepted_intents
            ≡ (if any (λ i. has_key k i && is_eligible cooldown i) rows then 1 else 0))
  unfolding arbitrate_rows
  arbitrate_one_winner = (
    arbitrate_rows a cooldown rows,
    arbitrate-rows,
    λ k.
        count-sort_by (has_key k) intent_before
          (decide_groups a cooldown (keys_from [] rows) rows).1
        ∙ count-accepted_keys a cooldown k rows distinct,
  )

  -- When the intents pass `normalize`, each accepted intent is one that no cooldown forbids, and it
  -- has the lowest priority number, and at equal priority the lowest id, of all intents with its
  -- fill time and symbol that no cooldown forbids.
  pub arbitrate-IsBest :
      (batch : ArbitrationBatch F) × (arbitrate a cooldown well_typed (some raw) ≡ ok batch)
      × All (IsBest cooldown rows) batch.accepted_intents
  unfolding arbitrate_rows
  arbitrate-IsBest =
      let groups = decide_groups a cooldown (keys_from [] rows) rows in
      (
        arbitrate_rows a cooldown rows,
        arbitrate-rows,
        All-sort_by (IsBest cooldown rows) intent_before groups.1 (
            decide_groups-IsBest a cooldown (keys_from [] rows) rows distinct
              (normalize-IsNormal a true well_typed raw normal).1),
      )

  -- When the intents pass `normalize`, every instruction of the batch either has the id of an
  -- accepted intent, or has a zero constrained delta, no target weight, and a reason that is a
  -- cooldown or a suppression.
  pub arbitrate-IsSettled :
      (batch : ArbitrationBatch F) × (arbitrate a cooldown well_typed (some raw) ≡ ok batch)
      × All (IsSettled batch.accepted_intents) batch.instructions
  unfolding arbitrate_rows
  arbitrate-IsSettled =
      let groups = decide_groups a cooldown (keys_from [] rows) rows in
      let chosen = sort_by intent_before groups.1 in
      (
        arbitrate_rows a cooldown rows,
        arbitrate-rows,
        All-sort_by (IsSettled chosen) instruction_before groups.0 (
            All-map (IsSettled groups.1) (IsSettled chosen) (λ i h. IsSettled-sorted i groups.1 h)
              groups.0 (decide_groups-IsSettled a cooldown (keys_from [] rows) rows distinct)),
      )

  -- When the intents pass `normalize`, `arbitrate` loses none and invents none: each id is as often
  -- among the instructions and in the trace as among the intents, and the accepted and the
  -- suppressed add up to the input.
  pub arbitrate_keeps_all :
      (batch : ArbitrationBatch F) × (arbitrate a cooldown well_typed (some raw) ≡ ok batch)
      × ((n : ℕ)
          → (count (has_id n) batch.instructions ≡ count (has_id n) rows)
            × (count (has_trace_id n) batch.trace ≡ count (has_id n) rows))
      × (length batch.instructions ≡ batch.input_count)
      × (batch.accepted_count + batch.suppressed_count ≡ batch.input_count)
  unfolding arbitrate_rows
  arbitrate_keeps_all =
      let counts = arbitrate_rows-counts a cooldown rows in
      (
        arbitrate_rows a cooldown rows,
        arbitrate-rows,
        arbitrate_rows-ids a cooldown rows,
        counts.0,
        ground (arith, counts.1),
      )
