-- ===== src/Events/Normal.antt =====
-- What `normalize` promises of the rows it returns.
use bfbt.Base.{
  ℕ, ◌≤◌, ◌≡◌, refl, subst, inl, inr, Bool, true, false, some, List, [], ◌∷◌, arith, ◌==◌,
  Bool-cases, Option-cases, any, sort_by, All, count, any-false-count, count-sort_by, All-sort_by,
  IsOrdered, sort_by-IsOrdered,
}
use bfbt.Exec.{ok}
use bfbt.Exec.Laws.{ok-injective, Result-cases}
use bfbt.Float.{Float}
use bfbt.Rank.Row.{Side}
use bfbt.Events.Intent.{
  Arbitrator, RawIntent, Intent, is_priority, has_duplicate_ids, intent_before, typed_intent,
  is_infinite, check_typed, check_timed, check_intent, check_intents, normalize,
}
use bfbt.Events.Winner.{has_id, IsDistinct}

module _ {F : Type 0} where
  -- Whether a raw row has an id.
  abbrev raw_id : ℕ → RawIntent F → Bool
  raw_id n r = r.instruction_id == n

  any-raw_id :
      (n : ℕ) (rows : List (RawIntent F))
      → any (λ x. n == x.instruction_id) rows ≡ false
      → any (raw_id n) rows ≡ false
  any-raw_id n [] h = refl
  any-raw_id n (r ∷ rows) h = ground (arith, any-raw_id n rows)

  raw_id-distinct :
      (rows : List (RawIntent F))
      → has_duplicate_ids rows ≡ false
      → (n : ℕ) → count (raw_id n) rows ≤ 1
  unfolding has_duplicate_ids
  raw_id-distinct [] h n = omega arith
  raw_id-distinct (r ∷ rows) h n = elim (Bool-cases (raw_id n r)) [
    | inl e ↦
        let same : r.instruction_id ≡ n = ground arith in
        let absent : any (λ x. n == x.instruction_id) rows ≡ false =
          subst (λ m. any (λ x. m == x.instruction_id) rows ≡ false) same (ground (arith)) in
        ground (arith, e, any-false-count (raw_id n) rows, any-raw_id n rows absent)
    | inr e ↦ ground (arith, e, raw_id-distinct rows (ground (arith, h)) n)
  ]

module _ {F : Type 0} where
  pub intent_before_total : (x y : Intent F) → intent_before x y ≡ false → intent_before y x ≡ true
  unfolding intent_before
  intent_before_total x y h = ground arith

  pub intent_before_trans :
      (x y z : Intent F)
      → intent_before x y ≡ true
      → intent_before y z ≡ true
      → intent_before x z ≡ true
  unfolding intent_before
  intent_before_trans x y z h k = ground arith

module _ {F : Type 0} ⦃f : Float F⦄ where
  -- What the row loop tests.
  abbrev pub IsNormal : Arbitrator → Intent F → Type 0
  IsNormal a i =
      (a.is_explicit i.instruction_id ≡ true)
      × (i.decision_time ≤ i.fill_time)
      × (is_priority i.priority ≡ true)
      × (is_infinite i.requested_delta_notional ≡ false)
      × (is_infinite i.constrained_delta_notional ≡ false)
      × (i.run_id ≡ a.run_id)

  check_typed-IsNormal :
      (a : Arbitrator) (r : RawIntent F) (decision fill : ℕ) (side : Side) {i : Intent F}
      → a.is_explicit r.instruction_id ≡ true
      → decision ≤ fill
      → check_typed a r decision fill side ≡ ok i
      → IsNormal a i × (i.instruction_id ≡ r.instruction_id)
  unfolding check_typed typed_intent
  check_typed-IsNormal a r decision fill side {i} x l h = elim (Option-cases r.reason_code) [
    | inl e ↦ absurd (ground (arith, e))
    | inr (reason, e) ↦
        let same : typed_intent r decision fill side reason ≡ i = ground (arith, e) in
        subst (λ j. IsNormal a j × (j.instruction_id ≡ r.instruction_id)) same (ground (arith, e))
  ]

  check_intent-IsNormal :
      (a : Arbitrator) (r : RawIntent F) {i : Intent F}
      → check_intent a r ≡ ok i
      → IsNormal a i × (i.instruction_id ≡ r.instruction_id)
  unfolding check_intent check_timed
  check_intent-IsNormal a r {i} h = elim (Bool-cases (a.is_explicit r.instruction_id)) [
    | inr e ↦ absurd (ground (arith, e))
    | inl e ↦ elim (Option-cases r.decision_time) [
      | inl e' ↦ absurd (ground (arith, e, e'))
      | inr (decision, e') ↦ elim (Option-cases r.fill_time) [
        | inl e'' ↦ absurd (ground (arith, e, e', e''))
        | inr (fill, e'') ↦ elim (Option-cases r.side) [
          | inl e3 ↦ absurd (ground (arith, e, e', e'', e3))
          | inr (side, e3) ↦
              check_typed-IsNormal a r decision fill side {i = i} e (ground (arith, e, e', e'', e3))
                (ground (arith, e, e', e'', e3))
        ]
      ]
    ]
  ]

  pub check_intents-IsNormal :
      (a : Arbitrator) (rows : List (RawIntent F)) {xs : List (Intent F)}
      → check_intents a rows ≡ ok xs
      → All (IsNormal a) xs × ((n : ℕ) → count (has_id n) xs ≡ count (raw_id n) rows)
  unfolding check_intents
  check_intents-IsNormal a [] {xs} h =
      let same : [] ≡ xs = ok-injective h in
      subst (λ ys. All (IsNormal a) ys × ((n : ℕ) → count (has_id n) ys ≡ 0)) same (tt, λ n. refl)
  check_intents-IsNormal a (r ∷ rows) {xs} h = elim (Result-cases (check_intent a r)) [
    | inl (e, c) ↦ absurd (ground (arith, c))
    | inr (i, c) ↦ elim (Result-cases (check_intents a rows)) [
      | inl (e, c') ↦ absurd (ground (arith, c, c'))
      | inr (ys, c') ↦
          let same : i ∷ ys ≡ xs = ground (arith, c, c') in
          let (normal, id) = check_intent-IsNormal a r {i = i} c in
          let (normals, ids) = check_intents-IsNormal a rows {xs = ys} c' in
          subst
            (λ zs.
              All (IsNormal a) zs × ((n : ℕ) → count (has_id n) zs ≡ count (raw_id n) (r ∷ rows)))
            same ((normal, normals), λ n. ground (arith, id, ids n))
    ]
  ]

  -- `normalize` returns rows of the arbitrator's run, with known priorities and finite notionals,
  -- filled no earlier than decided, sorted, and without a repeated id.
  pub normalize-IsNormal :
      (a : Arbitrator) (limited well_typed : Bool) (raw : List (RawIntent F))
      {rows : List (Intent F)}
      → normalize a limited well_typed (some raw) ≡ ok rows
      → All (IsNormal a) rows × IsOrdered intent_before rows × IsDistinct rows
  unfolding normalize
  normalize-IsNormal a limited well_typed raw {rows} h = elim (Result-cases (check_intents a raw)) [
    | inl (e, c) ↦ absurd (ground (arith, c))
    | inr (xs, c) ↦
        let same : sort_by intent_before xs ≡ rows = ground (arith, c) in
        let (normals, ids) = check_intents-IsNormal a raw {xs = xs} c in
        let unique = raw_id-distinct raw (ground (arith, c)) in
        subst (λ ys. All (IsNormal a) ys × IsOrdered intent_before ys × IsDistinct ys) same
          (
            All-sort_by (IsNormal a) intent_before xs normals,
            sort_by-IsOrdered intent_before intent_before_total intent_before_trans xs,
            λ n. omega (arith, count-sort_by (has_id n) intent_before xs, ids n, unique n),
          )
  ]
