-- ===== src/Events/Arbitrated.antt =====
-- The batch that `arbitrate` returns: its counts, its winners and its losers.
use bfbt.Base.{
  ℕ, suc, ◌≤◌, ◌≡◌, refl, ap, ◌⊎◌, inl, inr, Bool, true, false, Option, none, some, List, [], ◌∷◌,
  map, arith, ◌==◌, Bool-cases, Option-cases, length, filter, All, All-append, All-map, count,
}
use bfbt.Contracts.{ReasonCode}
use bfbt.Float.{Float}
use bfbt.Events.Intent.{Arbitrator, Intent}
use bfbt.Events.Arbitrate.{
  Trace, has_key, is_cooled, winner_of, is_winner, final_reason, final_row, decide_groups,
}
use bfbt.Events.Count.{final_row-same, decide_rows-map}
use bfbt.Events.Winner.{has_id, IsDistinct}
use bfbt.Events.Groups.{IsDistinct-filter}
use bfbt.Events.Best.{filter-winner_of, filter-is_winner, filter-is_winner-none}

abbrev pub has_trace_id : ℕ → Trace → Bool
has_trace_id n t = t.instruction_id == n

pub count_all : {A : Type 0} (xs : List A) → count (λ _. true) xs ≡ length xs
count_all [] = refl
count_all (x ∷ xs) = ap suc (count_all xs)

module _ {F : Type 0} ⦃f : Float F⦄ where
  -- Nothing is done for the intent, and its reason says why.
  abbrev pub IsSuppressed : Intent F → Type 0
  IsSuppressed i =
      (i.constrained_delta_notional ≡ some f.nought)
      × (i.requested_target_weight ≡ none)
      × ((i.reason_code ≡ ReasonCode.cooldown_active)
          ⊎ (i.reason_code ≡ ReasonCode.suppressed_by_higher_priority))

  -- An accepted intent has the same id, or nothing is done.
  abbrev pub IsSettled : List (Intent F) → Intent F → Type 0
  IsSettled chosen i = (1 ≤ count (has_id i.instruction_id) chosen) ⊎ IsSuppressed i

  final_row-IsSuppressed :
      (a : Arbitrator) (cooldown : List ℕ) (w : Option (Intent F)) (i : Intent F)
      → is_winner w i ≡ false
      → IsSuppressed (final_row a cooldown w i)
  unfolding final_row final_reason
  final_row-IsSuppressed a cooldown w i e = elim (Bool-cases (is_cooled cooldown i)) [
    | inl c ↦ rw (e, c) ((refl, refl, inl refl))
    | inr c ↦ rw (e, c) ((refl, refl, inr refl))
  ]

  final_row-IsSettled :
      (a : Arbitrator) (cooldown : List ℕ) (w i : Intent F) (rest : List (Intent F))
      → IsSettled (final_row a cooldown (some w) w ∷ rest) (final_row a cooldown (some w) i)
  unfolding is_winner
  final_row-IsSettled a cooldown w i rest = elim (Bool-cases (is_winner (some w) i)) [
    | inl e ↦
        let same = final_row-same a cooldown (some w) i in
        let mine = final_row-same a cooldown (some w) w in inl (ground (arith, e, same, mine))
    | inr e ↦ inr (final_row-IsSuppressed a cooldown (some w) i e)
  ]

  settle_none :
      (a : Arbitrator) (cooldown : List ℕ) (chosen rows : List (Intent F))
      → All (IsSettled chosen) (map (final_row a cooldown none) rows)
  unfolding is_winner
  settle_none a cooldown chosen [] = tt
  settle_none a cooldown chosen (i ∷ rows) =
      (inr (final_row-IsSuppressed a cooldown none i refl), settle_none a cooldown chosen rows)

  settle_some :
      (a : Arbitrator) (cooldown : List ℕ) (w : Intent F) (rest rows : List (Intent F))
      → All
          (IsSettled (final_row a cooldown (some w) w ∷ rest))
          (map (final_row a cooldown (some w)) rows)
  settle_some a cooldown w rest [] = tt
  settle_some a cooldown w rest (i ∷ rows) =
      (final_row-IsSettled a cooldown w i rest, settle_some a cooldown w rest rows)

  IsSettled-cons :
      (x : Intent F) (chosen : List (Intent F)) (i : Intent F)
      → IsSettled chosen i
      → IsSettled (x ∷ chosen) i
  IsSettled-cons x chosen i (inl h) = inl (ground (arith, h))
  IsSettled-cons x chosen i (inr h) = inr h

  pub decide_groups-IsSettled :
      (a : Arbitrator) (cooldown : List ℕ) (keys : List (ℕ × ℕ)) (rows : List (Intent F))
      → IsDistinct rows
      → All
          (IsSettled (decide_groups a cooldown keys rows).1)
          (decide_groups a cooldown keys rows).0
  unfolding decide_groups
  decide_groups-IsSettled a cooldown [] rows d = tt
  decide_groups-IsSettled a cooldown (k ∷ keys) rows d =
      let group = filter (has_key k) rows in
      let rest = decide_groups a cooldown keys rows in
      let settled = decide_groups-IsSettled a cooldown keys rows d in
      rw (decide_rows-map a cooldown (winner_of cooldown group) group)
        elim (Option-cases (winner_of cooldown group)) [
          | inl e ↦
              rw (e, filter-is_winner-none group)
                (All-append (IsSettled rest.1) (map (final_row a cooldown none) group) rest.0
                  (settle_none a cooldown rest.1 group) settled)
          | inr (w, e) ↦
              let chosen = final_row a cooldown (some w) w ∷ rest.1 in
              rw
                (
                  e,
                  filter-is_winner w group,
                  filter-winner_of cooldown group {w = w} (IsDistinct-filter (has_key k) rows d) e,
                )
                (All-append (IsSettled chosen) (map (final_row a cooldown (some w)) group) rest.0
                  (settle_some a cooldown w rest.1 group)
                  (All-map (IsSettled rest.1) (IsSettled chosen)
                    (IsSettled-cons (final_row a cooldown (some w) w) rest.1) rest.0 settled))
        ]
