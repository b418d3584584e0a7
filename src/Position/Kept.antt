-- ===== src/Position/Kept.antt =====
-- No method makes a symbol stand twice among the positions, nor keeps one without a quantity.
use bfbt.Base.{
  ℕ, ◌≤◌, ◌≡◌, refl, sym, subst, inl, inr, Bool, false, not, ◌&&◌, Option, none, some, [], ◌∷◌,
  arith, ◌==◌, Bool-cases, is_some, All,
}
use bfbt.Costs.{updated_average_entry}
use bfbt.Dict.{Dict, lookup, insert, filter_items, erase, IsUnique}
use bfbt.Dict.Unique.{IsUnique-insert, IsUnique-filter_items}
use bfbt.Exec.Keeps.{Keeps, continue-Keeps}
use bfbt.Float.{Float, FloatMath}
use bfbt.Position.State.{Position, Account, Engine, is_rolling}
use bfbt.Position.Tracked.{track_rolling-Keeps}
use bfbt.Position.Execute.{
  quantity_of, average_of, realized, adds_after, traded_quantity, place_position, track_rolling,
  fill, execute,
}

module _ {V : Type 0} where
  pub All-insert :
      (P : ℕ × V → Type 0) (k : ℕ) (v : V) (d : Dict V) → P (k, v) → All P d → All P (insert k v d)
  unfolding insert
  All-insert P k v [] h hs = (h, tt)
  All-insert P k v (x ∷ d) h (p, ps) = elim (Bool-cases (k == x.0)) [
    | inl e ↦ rw (All, e) ((h, ps))
    | inr e ↦ rw (All, e) ((p, All-insert P k v d h ps))
  ]

  All-filter_items :
      (P : ℕ × V → Type 0) (p : ℕ → V → Bool) (d : Dict V) → All P d → All P (filter_items p d)
  unfolding filter_items
  All-filter_items P p [] h = tt
  All-filter_items P p (x ∷ d) (h, hs) = elim (Bool-cases (p x.0 x.1)) [
    | inl e ↦ rw (All, e) ((h, All-filter_items P p d hs))
    | inr e ↦ rw (All, e) (All-filter_items P p d hs)
  ]

module _ {F : Type 0} ⦃f : Float F⦄ where
  -- The quantity is beyond the tolerance and at least one trade made it.
  abbrev pub IsHeld : ℕ × Position F → Type 0
  IsHeld x = (f.le (f.abs x.1.quantity) f.epsilon ≡ false) × (1 ≤ x.1.consecutive_adds)

  abbrev pub IsKept : Account F → Type 0
  IsKept s = IsUnique s.positions × All IsHeld s.positions

  -- A position that is there was traded at least once.
  abbrev HasAdds : Option (Position F) → Type 0
  HasAdds none = Unit
  HasAdds (some p) = 1 ≤ p.consecutive_adds

  lookup-HasAdds : (symbol : ℕ) (d : Dict (Position F)) → All IsHeld d → HasAdds (lookup symbol d)
  unfolding lookup
  lookup-HasAdds symbol [] h = tt
  lookup-HasAdds symbol (x ∷ d) (h, hs) = elim (Bool-cases (symbol == x.0)) [
    | inl e ↦ rw (HasAdds, e) (h.1)
    | inr e ↦ rw (e) (lookup-HasAdds symbol d hs)
  ]

  adds_after-pos : (old : Option (Position F)) (new : F) → HasAdds old → 1 ≤ adds_after old new
  unfolding adds_after
  adds_after-pos none new h = omega arith
  adds_after-pos (some p) new h = ground (arith, h)

  erase-IsKept :
      (symbol : ℕ) (d : Dict (Position F))
      → IsUnique d × All IsHeld d
      → IsUnique (erase symbol d) × All IsHeld (erase symbol d)
  erase-IsKept symbol d (u, h) = (
    IsUnique-filter_items (λ j _. not (symbol == j)) d u,
    All-filter_items IsHeld (λ j _. not (symbol == j)) d h,
  )

module _ {F : Type 0} ⦃f : Float F⦄ ⦃m : FloatMath F⦄ where
  place_position-IsKept :
      (symbol : ℕ) (old : Option (Position F)) (new : F) (average : Option F)
      (d : Dict (Position F))
      → HasAdds old
      → IsUnique d × All IsHeld d
      → IsUnique (place_position symbol old new average d)
        × All IsHeld (place_position symbol old new average d)
  unfolding place_position
  place_position-IsKept symbol old new none d a h = erase-IsKept symbol d h
  place_position-IsKept symbol old new (some average) d a h =
      elim (Bool-cases (f.le (f.abs new) f.epsilon)) [
        | inl y ↦ rw (y) (erase-IsKept symbol d h)
        | inr y ↦
            let p : Position F = record {
              quantity = new;
              average_entry_price = average;
              consecutive_adds = adds_after old new;
            } in
            rw (y) (
              (
                IsUnique-insert symbol p d h.0,
                All-insert IsHeld symbol p d (y, adds_after-pos old new a) h.1,
              ))
      ]

  fill-IsKept :
      (e : Engine F) (symbol : ℕ) (old : Option (Position F)) (delta traded new price : F)
      → HasAdds old
      → Keeps IsKept (fill e symbol old delta traded new price)
  unfolding fill
  fill-IsKept e symbol old delta traded new price a s h =
      let gain = realized old traded price in
      let fee = f.mul (f.abs delta) e.fee_rate in
      let slippage = f.mul (f.abs delta) e.slippage_rate in
      let average = updated_average_entry (quantity_of old) new (average_of old) price in
      let paid : Account F = record s {
        cash_balance = f.add s.cash_balance (f.sub (f.sub gain fee) slippage);
      } in
      let same =
        track_rolling-Keeps s.positions s.sequence s.last_decision_time e old new price gain fee
          slippage paid (refl, refl, refl) in
      continue-Keeps IsKept (track_rolling e old new price gain fee slippage paid) _
        (subst (λ d. IsUnique d × All IsHeld d) (sym same.0) h)
        (λ u t k. place_position-IsKept symbol old new average t.positions a k)

  -- `_execute` keeps it whether it returns or raises.
  pub execute-IsKept :
      (e : Engine F) (symbol : ℕ) (delta price : F) → Keeps IsKept (execute e symbol delta price)
  unfolding execute
  execute-IsKept e symbol delta price s h =
      let old = lookup symbol s.positions in
      let traded = traded_quantity old delta price in
      let new = f.add (quantity_of old) traded in
      elim (Bool-cases (f.le (f.abs delta) f.epsilon)) [
        | inl x ↦ rw (x) h
        | inr x ↦
            elim (Bool-cases (
              is_rolling e.sizing.mode
              && is_some old
              && f.lt (f.mul (quantity_of old) new) (f.neg f.epsilon))) [
                | inl y ↦ rw (x, y) h
                | inr y ↦
                    rw (x, y)
                      (fill-IsKept e symbol old delta traded new price
                        (lookup-HasAdds symbol s.positions h.1) s h)
              ]
      ]
