-- ===== src/Risk/Drain.antt =====
-- What `drain_due` does: the due intents become instructions, in order, and leave the state.
use bfbt.Base.{
  ℕ, ◌+◌, ◌≤◌, ◌≡◌, refl, sym, ap, ◌∙◌, Bool, true, false, not, ◌||◌, Option, none, some, List, [],
  ◌∷◌, arith, ◌==◌, leb, if◌then◌else◌, length, any, map, suc,
}
use bfbt.Dict.{Dict, lookup, erase, IsUnique, all_items}
use bfbt.Dict.Laws.{lookup-filter_items}
use bfbt.Dict.Unique.{IsUnique-filter_items, length-filter_items}
use bfbt.Exec.{ok}
use bfbt.Exec.Laws.{ok-injective, continue-eq-ok, lift-eq-ok, raise_if-eq-ok}
use bfbt.Float.{Float}
use bfbt.Risk.State.{RiskState, Machine, Frame, PositionInput, PositionRow, Pending}
use bfbt.Risk.Input.{position_rows}
use bfbt.Risk.Checkpoint.{checkpoint}
use bfbt.Risk.Fill.{
  FillRow, RiskFillBatch, due_before, place_due, due_at, fill_one, fill_all, drain_due,
}

module _ {F : Type 0} where
  -- `pop` of the symbol of each item.
  abbrev pub erase_all : List (Pending F) → Dict (Pending F) → Dict (Pending F)
  erase_all [] d = d
  erase_all (item ∷ due) d = erase_all due (erase item.symbol d)

  abbrev pub has_symbol : ℕ → List (Pending F) → Bool
  has_symbol k = any (λ item. item.symbol == k)

  pub IsUnique-erase_all :
      (due : List (Pending F)) (d : Dict (Pending F)) → IsUnique d → IsUnique (erase_all due d)
  IsUnique-erase_all [] d u = u
  IsUnique-erase_all (item ∷ due) d u =
      IsUnique-erase_all due (erase item.symbol d) (IsUnique-filter_items _ d u)

  pub length-erase_all :
      (due : List (Pending F)) (d : Dict (Pending F)) → length (erase_all due d) ≤ length d
  length-erase_all [] d = omega arith
  length-erase_all (item ∷ due) d = omega (
    arith,
    length-erase_all due (erase item.symbol d),
    length-filter_items (λ j _. not (item.symbol == j)) d,
  )

  pub lookup-erase_all :
      (k : ℕ) (due : List (Pending F)) (d : Dict (Pending F))
      → IsUnique d
      → lookup k (erase_all due d) ≡ (if has_symbol k due then none else lookup k d)
  lookup-erase_all k [] d u = refl
  lookup-erase_all k (item ∷ due) d u = ground (
    arith,
    lookup-erase_all k due (erase item.symbol d) (IsUnique-filter_items _ d u),
    lookup-filter_items (λ j _. not (item.symbol == j)) k d u,
  )

  has_symbol-place_due :
      (k : ℕ) (a : Pending F) (bs : List (Pending F))
      → has_symbol k (place_due a bs) ≡ (a.symbol == k || has_symbol k bs)
  unfolding place_due
  has_symbol-place_due k a [] = refl
  has_symbol-place_due k a (b ∷ bs) = ground (arith, has_symbol-place_due k a bs)

  abbrev pub is_due : ℕ → Option (Pending F) → Bool
  is_due time none = false
  is_due time (some item) = item.fill_time == time

  pub has_symbol-due_at :
      (k time : ℕ) (d : Dict (Pending F))
      → IsUnique d
      → ((j : ℕ) (item : Pending F) → lookup j d ≡ some item → item.symbol ≡ j)
      → has_symbol k (due_at time d) ≡ is_due time (lookup k d)
  unfolding due_at lookup
  has_symbol-due_at k time [] u keyed = refl
  has_symbol-due_at k time (e ∷ d) u keyed = ground (
    arith,
    has_symbol-due_at k time d u.1 (λ j item h. keyed j item (ground arith)),
    has_symbol-place_due k e.1 (due_at time d),
    keyed e.0 e.1 (ground arith),
    u.0,
  )

  -- By priority and then by symbol.
  abbrev pub IsDueOrder : List (Pending F) → Type 0
  IsDueOrder [] = Unit
  IsDueOrder (a ∷ []) = Unit
  IsDueOrder (a ∷ b ∷ bs) = (due_before a b ≡ true) × IsDueOrder (b ∷ bs)

  due_before_total : (a b : Pending F) → due_before a b ≡ false → due_before b a ≡ true
  unfolding due_before
  due_before_total a b h = ground arith

  place_due-IsDueOrder :
      (a : Pending F) (bs : List (Pending F)) → IsDueOrder bs → IsDueOrder (place_due a bs)
  unfolding place_due
  place_due-IsDueOrder a [] h = tt
  place_due-IsDueOrder a (b ∷ []) h = ground (arith, due_before_total a b)
  place_due-IsDueOrder a (b ∷ c ∷ bs) h =
      ground (arith, due_before_total a b, place_due-IsDueOrder a (c ∷ bs))

  pub due_at-IsDueOrder : (time : ℕ) (d : Dict (Pending F)) → IsDueOrder (due_at time d)
  unfolding due_at
  due_at-IsDueOrder time [] = tt
  due_at-IsDueOrder time (e ∷ d) =
      ground (arith, place_due-IsDueOrder e.1 (due_at time d), due_at-IsDueOrder time d)

-- What an instruction takes over from its intent.
abbrev pub row_key : {F : Type 0} → FillRow F → ℕ × ℕ × ℕ × ℕ
row_key r = (r.source_event_id, r.symbol, r.priority, r.decision_time)

abbrev pub item_key : {F : Type 0} → Pending F → ℕ × ℕ × ℕ × ℕ
item_key item = (item.event_id, item.symbol, item.priority, item.fill_time)

module _ {F : Type 0} ⦃f : Float F⦄ (m : Machine F) (open_time : ℕ) (prices : Dict F)
    (rows : Dict (PositionRow F)) where
  record OneFilled (item : Pending F) (s : RiskState F) (row : FillRow F) (t : RiskState F)
      : Type 0 where
    key : row_key row ≡ item_key item
    timed : row.fill_time ≡ open_time
    same_delta : row.constrained_delta_notional ≡ row.requested_delta_notional
    after : t ≡ record s { sequence = s.sequence + 1; pending = erase item.symbol s.pending }

  fill_one-OneFilled :
      (item : Pending F) (s : RiskState F) {row : FillRow F} {t : RiskState F}
      → fill_one m open_time prices rows item s ≡ (ok row, t)
      → OneFilled item s row t
  unfolding fill_one
  fill_one-OneFilled item s h = ground arith

  pub record AllFilled (due : List (Pending F)) (s : RiskState F) (out : List (FillRow F))
      (t : RiskState F) : Type 0 where
    pub keys : map row_key out ≡ map item_key due
    pub count : length out ≡ length due
    pub after :
        t ≡ record s { sequence = s.sequence + length due; pending = erase_all due s.pending }

  pub fill_all-AllFilled :
      (due : List (Pending F)) (s : RiskState F) {out : List (FillRow F)} {t : RiskState F}
      → fill_all m open_time prices rows due s ≡ (ok out, t)
      → AllFilled due s out t
  unfolding fill_all
  fill_all-AllFilled [] s h = record {
    keys = rw (← ok-injective (ap (λ r. r.0) h)) refl;
    count = rw (← ok-injective (ap (λ r. r.0) h)) refl;
    after = ground arith;
  }
  fill_all-AllFilled (item ∷ due) s h =
      let (row, u, e1, h1) = continue-eq-ok (fill_one m open_time prices rows item s) _ h in
      let (later, v, e2, h2) = continue-eq-ok (fill_all m open_time prices rows due u) _ h1 in
      let one = fill_one-OneFilled item s e1 in
      let rest = fill_all-AllFilled due u e2 in
      record {
        keys = rw (← ok-injective (ap (λ r. r.0) h2)) (cc (one.key, rest.keys));
        count = rw (← ok-injective (ap (λ r. r.0) h2)) (ap suc rest.count);
        after = sym (ap (λ r. r.1) h2) ∙ rest.after ∙ rw one.after (ground arith);
      }

module _ {F : Type 0} ⦃f : Float F⦄ where
  -- A call of `drain_due` that returns. `rows` are the held positions.
  pub record Drained (m : Machine F) (open_time : ℕ) (prices : Dict F)
      (positions : Frame (PositionInput F)) (s : RiskState F) (batch : RiskFillBatch F)
      (t : RiskState F) : Type 0 where
    pub keys : map row_key batch.instructions ≡ map item_key (due_at open_time s.pending)
    pub after : t ≡ record s {
      sequence = s.sequence + length batch.instructions;
      pending = erase_all (due_at open_time s.pending) s.pending;
    }
    pub not_passed : all_items (λ _ item. leb open_time item.fill_time) s.pending ≡ true
    pub saved : batch.saved ≡ checkpoint t

  pub drain_due-Drained :
      (m : Machine F) (open_time : ℕ) (aware : Bool) (prices : Dict F)
      (positions : Frame (PositionInput F)) (s : RiskState F) {batch : RiskFillBatch F}
      {t : RiskState F}
      → drain_due m open_time aware prices positions s ≡ (ok batch, t)
      → Drained m open_time prices positions s batch t
  unfolding drain_due
  drain_due-Drained m open_time aware prices positions s h =
      let (a, h1) = raise_if-eq-ok (not aware) _ s _ h in
      let (b, h2) =
        raise_if-eq-ok (not (all_items (λ _ item. leb open_time item.fill_time) s.pending)) _ s _
          h1 in
      let (rows, c, h3) = lift-eq-ok (position_rows positions) s _ h2 in
      let (out, u, d, h4) =
        continue-eq-ok (fill_all m open_time prices rows (due_at open_time s.pending) s) _ h3 in
      let all = fill_all-AllFilled m open_time prices rows (due_at open_time s.pending) s d in
      record {
        keys = rw (← ok-injective (ap (λ r. r.0) h4)) all.keys;
        after =
            rw (← ok-injective (ap (λ r. r.0) h4), all.count) (sym (ap (λ r. r.1) h4) ∙ all.after);
        not_passed = ground arith;
        saved = rw (← ok-injective (ap (λ r. r.0) h4), ← ap (λ r. r.1) h4) refl;
      }
