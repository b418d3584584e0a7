-- ===== src/Events/Resolved.antt =====
-- Every risk event that is returned is resolved, and by the fill of its own trades.
use bfbt.Base.{
  any-false-All, ℕ, ◌≡◌, refl, sym, ap, ◌∙◌, subst, ◌≢◌, ◌⊎◌, inl, inr, Bool, true, false, not,
  ◌&&◌, Option, none, some, List, [], ◌∷◌, map, arith, ◌==◌, Bool-cases, Option-cases, is_some, any,
  all, All, All-map,
}
use bfbt.Contracts.{ReasonCode}
use bfbt.Exec.{ok}
use bfbt.Risk.State.{Frame}
use bfbt.Events.Link.{
  RiskEventRow, LinkedTrade, InstructionOutcome, is_terminal, same_time, raw_links, raw_outcomes,
  is_split, first_of, coalesced, resolve_event, is_unresolved, resolve_all, link_risk_event_fills,
}

-- The event has a fill time or a reason to have none.
abbrev pub IsResolved : RiskEventRow → Type 0
IsResolved x = (is_some x.fill_time ≡ true) ⊎ (is_terminal x.reason_code ≡ true)

-- The event kept its id, belongs to the run, is resolved, and has the fill time of every filled
-- trade that names it and has one.
abbrev pub IsLinked : ℕ → List (ℕ × Option ℕ) → RiskEventRow → RiskEventRow → Type 0
IsLinked run_id links x y =
    (y.event_id ≡ x.event_id)
    × (y.run_id ≡ run_id)
    × IsResolved y
    × All (λ l. (l.0 ≢ x.event_id) ⊎ ((l.1 ≡ none) ⊎ (y.fill_time ≡ l.1))) links

-- The rows of two lists are linked one by one.
abbrev pub AreLinked : ℕ → List (ℕ × Option ℕ) → List RiskEventRow → List RiskEventRow → Type 0
AreLinked run_id links [] [] = Unit
AreLinked run_id links (x ∷ xs) (y ∷ ys) = IsLinked run_id links x y × AreLinked run_id links xs ys
AreLinked run_id links [] (y ∷ ys) = ⊥
AreLinked run_id links (x ∷ xs) [] = ⊥

same_time-eq : (a b : Option ℕ) → same_time a b ≡ true → a ≡ b
same_time-eq none none h = refl
same_time-eq none (some b) h = cc
same_time-eq (some a) none h = cc
same_time-eq (some a) (some b) h = ap some (ground (arith, h))

first_of-first :
    {V : Type 0} (same : V → V → Bool) (k : ℕ) (all rows : List (ℕ × V)) {v : V}
    → All (λ x. any (λ y. (x.0 == y.0) && not (same x.1 y.1)) all ≡ false) rows
    → first_of k rows ≡ some v
    → any (λ y. (k == y.0) && not (same v y.1)) all ≡ false
unfolding first_of
first_of-first same k all [] h e = cc
first_of-first same k all (x ∷ rows) {v} (h, hs) e = elim (Bool-cases (k == x.0)) [
  | inl c ↦
      let value : x.1 ≡ v = ground (arith, c, e) in
      let key : x.0 ≡ k = ground (arith, c) in
      subst (λ j. any (λ y. (j == y.0) && not (same v y.1)) all ≡ false) key
        (subst (λ w. any (λ y. (x.0 == y.0) && not (same w y.1)) all ≡ false) value h)
  | inr c ↦ first_of-first same k all rows {v = v} hs (ground (arith, c, e))
]

first_of-none :
    {V : Type 0} (k : ℕ) (rows : List (ℕ × V)) → first_of k rows ≡ none → All (λ x. x.0 ≢ k) rows
unfolding first_of
first_of-none k [] e = tt
first_of-none k (x ∷ rows) e =
    ((λ c. ground (arith, c, e)), first_of-none k rows (ground (arith, e)))

link_step :
    (k : ℕ) (v own : Option ℕ) (l : ℕ × Option ℕ)
    → ((k == l.0) && not (same_time v l.1)) ≡ false
    → (l.0 ≢ k) ⊎ ((l.1 ≡ none) ⊎ (coalesced (some v) own ≡ l.1))
unfolding coalesced
link_step k v own l h = elim (Bool-cases (k == l.0)) [
  | inr c ↦ inl (λ e. ground (arith, c, e))
  | inl c ↦
      let same : v ≡ l.1 = same_time-eq v l.1 (ground (arith, c, h)) in
      inr (elim (Option-cases v) [
        | inl n ↦ inl (sym same ∙ n)
        | inr (t, n) ↦ inr (subst (λ w. coalesced (some w) own ≡ l.1) (sym n) (sym n ∙ same))
      ])
]

resolve_event-links :
    (run_id : ℕ) (links : List (ℕ × Option ℕ)) (outcomes : List (ℕ × ReasonCode)) (x : RiskEventRow)
    → is_split same_time links ≡ false
    → All
        (λ l.
          (l.0 ≢ x.event_id)
          ⊎ ((l.1 ≡ none) ⊎ ((resolve_event run_id links outcomes x).fill_time ≡ l.1)))
        links
unfolding resolve_event is_split
resolve_event-links run_id links outcomes x h = elim (Option-cases (first_of x.event_id links)) [
  | inl n ↦
      All-map (λ l. l.0 ≢ x.event_id)
        (λ l.
          (l.0 ≢ x.event_id)
          ⊎ ((l.1 ≡ none) ⊎ ((resolve_event run_id links outcomes x).fill_time ≡ l.1)))
        (λ l k. inl k) links (first_of-none x.event_id links n)
  | inr (v, n) ↦
      let unsplit =
        any-false-All (λ y. (x.event_id == y.0) && not (same_time v y.1)) links
          (first_of-first same_time x.event_id links links {v = v}
            (any-false-All (λ z. any (λ y. (z.0 == y.0) && not (same_time z.1 y.1)) links) links h)
            n) in
      All-map (λ l. ((x.event_id == l.0) && not (same_time v l.1)) ≡ false)
        (λ l.
          (l.0 ≢ x.event_id)
          ⊎ ((l.1 ≡ none) ⊎ ((resolve_event run_id links outcomes x).fill_time ≡ l.1)))
        (λ l k. rw (n) (link_step x.event_id v x.fill_time l k)) links unsplit
]

IsResolved-of : (y : RiskEventRow) → is_unresolved y ≡ false → IsResolved y
IsResolved-of y h = elim (Bool-cases (is_some y.fill_time)) [
  | inl e ↦ inl e
  | inr e ↦ inr (ground (arith, e, h))
]

resolve_event-same :
    (run_id : ℕ) (links : List (ℕ × Option ℕ)) (outcomes : List (ℕ × ReasonCode)) (x : RiskEventRow)
    → ((resolve_event run_id links outcomes x).event_id ≡ x.event_id)
      × ((resolve_event run_id links outcomes x).run_id ≡ run_id)
unfolding resolve_event
resolve_event-same run_id links outcomes x = (refl, refl)

map-AreLinked :
    (run_id : ℕ) (links : List (ℕ × Option ℕ)) (outcomes : List (ℕ × ReasonCode))
    (events : List RiskEventRow)
    → is_split same_time links ≡ false
    → any is_unresolved (map (resolve_event run_id links outcomes) events) ≡ false
    → AreLinked run_id links events (map (resolve_event run_id links outcomes) events)
map-AreLinked run_id links outcomes [] h k = tt
map-AreLinked run_id links outcomes (x ∷ events) h k = (
  (
    (resolve_event-same run_id links outcomes x).0,
    (resolve_event-same run_id links outcomes x).1,
    IsResolved-of (resolve_event run_id links outcomes x) (ground (arith, k)),
    resolve_event-links run_id links outcomes x h,
  ),
  map-AreLinked run_id links outcomes events h (ground (arith, k)),
)

resolve_all-AreLinked :
    (run_id : ℕ) (links : List (ℕ × Option ℕ)) (outcomes : List (ℕ × ReasonCode))
    (events : List RiskEventRow) {out : List RiskEventRow}
    → is_split same_time links ≡ false
    → resolve_all run_id links outcomes events ≡ ok out
    → AreLinked run_id links events out
unfolding resolve_all
resolve_all-AreLinked run_id links outcomes events {out} h r =
    let linked = map (resolve_event run_id links outcomes) events in
    elim (Bool-cases (any is_unresolved linked)) [
      | inl e ↦ absurd (ground (arith, e, r))
      | inr e ↦
          let same : linked ≡ out = ground (arith, e, r) in
          subst (λ ys. AreLinked run_id links events ys) same
            (map-AreLinked run_id links outcomes events h e)
    ]

-- `link_risk_event_fills`, when it returns, returns the events one by one and in order, each with
-- its id and the run's id, with a fill time or a reason that ends it without one, and with the fill
-- time of every filled trade that names it and has a fill time.
pub link_risk_event_fills-AreLinked :
    (same_reason : ReasonCode → ReasonCode → Bool) (run_id : ℕ) (events : Frame RiskEventRow)
    (trades : Frame LinkedTrade) (instructions : Option (Frame InstructionOutcome))
    {out : List RiskEventRow}
    → link_risk_event_fills same_reason run_id events trades instructions ≡ ok out
    → AreLinked run_id (raw_links trades.rows) events.rows out
unfolding link_risk_event_fills
link_risk_event_fills-AreLinked same_reason run_id events trades none {out} r =
    resolve_all-AreLinked run_id (raw_links trades.rows) [] events.rows {out = out}
      (ground (arith, r)) (ground (arith, r))
link_risk_event_fills-AreLinked same_reason run_id events trades (some frame) {out} r =
    resolve_all-AreLinked run_id (raw_links trades.rows) (raw_outcomes frame.rows) events.rows
      {out = out} (ground (arith, r)) (ground (arith, r))
