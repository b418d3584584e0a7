-- ===== src/Risk/Hits.antt =====
-- Where the hits of a bar come from.
use bfbt.Base.{
  ◌≡◌, sym, subst, Option, some, List, [], ◌∷◌, ◌++◌, arith, All, All-append, All-map, ltb, ◌⊎◌,
  inl, inr, Bool-cases, Option-cases,
}
use bfbt.Config.ExitRules.{ExitRule, SymbolExits, RiskConfig, ConflictPolicy}
use bfbt.Exec.{ok}
use bfbt.Exec.Laws.{Result-cases}
use bfbt.Float.{Float}
use bfbt.Risk.State.{EventType, RiskPosition, BarRow}
use bfbt.Risk.Trigger.{
  Hit, stop_loss_hits, trailing_hits, take_profit_hits, symbol_hits, hit_order, first_hit,
  choose_hit, symbol_trigger,
}

module _ {F : Type 0} where
  -- Every hit is of this kind and from this rule.
  abbrev pub AreOf : EventType → ExitRule F → List (Hit F) → Type 0
  AreOf kind rule = All (λ h. (h.rule ≡ rule) × (h.event_type ≡ kind))

  first_hit-All :
      (P : Hit F → Type 0) (hits : List (Hit F)) {h : Hit F}
      → All P hits
      → first_hit hits ≡ some h
      → P h
  unfolding first_hit
  first_hit-All P [] a e = cc
  first_hit-All P (x ∷ hits) {h} a e = elim (Option-cases (first_hit hits)) [
    | inl empty ↦ let same : x ≡ h = ground arith in subst P same a.0
    | inr (g, found) ↦ elim (Bool-cases (ltb (hit_order g.event_type) (hit_order x.event_type))) [
      | inl before ↦
          let same : g ≡ h = ground arith in subst P same (first_hit-All P hits a.1 found)
      | inr after ↦ let same : x ≡ h = ground arith in subst P same a.0
    ]
  ]

  choose_hit-first :
      (policy : ConflictPolicy) (hits : List (Hit F)) {o : Option (Hit F)}
      → choose_hit policy hits ≡ ok o
      → o ≡ first_hit hits
  unfolding choose_hit
  choose_hit-first ConflictPolicy.error [] e = ground arith
  choose_hit-first ConflictPolicy.error (a ∷ []) e = ground arith
  choose_hit-first ConflictPolicy.error (a ∷ b ∷ hits) e = cc
  choose_hit-first ConflictPolicy.worst_case [] e = ground arith
  choose_hit-first ConflictPolicy.worst_case (a ∷ []) e = ground arith
  choose_hit-first ConflictPolicy.worst_case (a ∷ b ∷ hits) e = ground arith

module _ {F : Type 0} ⦃f : Float F⦄ (p : RiskPosition F) (bar : BarRow F) where
  stop_loss_hits-AreOf :
      (rule : ExitRule F) {xs : List (Hit F)}
      → stop_loss_hits rule p bar ≡ ok xs
      → AreOf EventType.stop_loss rule xs
  unfolding stop_loss_hits
  stop_loss_hits-AreOf rule {xs = []} h = tt
  stop_loss_hits-AreOf rule {xs = x ∷ []} h = ground arith
  stop_loss_hits-AreOf rule {xs = x ∷ y ∷ xs} h = absurd (ground arith)

  trailing_hits-AreOf :
      (rule : ExitRule F) {xs : List (Hit F)}
      → trailing_hits rule p bar ≡ ok xs
      → AreOf EventType.trailing_stop rule xs
  unfolding trailing_hits
  trailing_hits-AreOf rule {xs = []} h = tt
  trailing_hits-AreOf rule {xs = x ∷ []} h = ground arith
  trailing_hits-AreOf rule {xs = x ∷ y ∷ xs} h = absurd (ground arith)

  take_profit_hits-AreOf :
      (rule : ExitRule F) {xs : List (Hit F)}
      → take_profit_hits rule p bar ≡ ok xs
      → AreOf EventType.take_profit rule xs
  unfolding take_profit_hits
  take_profit_hits-AreOf rule {xs = []} h = tt
  take_profit_hits-AreOf rule {xs = x ∷ []} h = ground arith
  take_profit_hits-AreOf rule {xs = x ∷ y ∷ xs} h = absurd (ground arith)

  -- The rule of a trigger is one of the three.
  abbrev pub IsRuleOf : SymbolExits F → ExitRule F → Type 0
  IsRuleOf e rule = (rule ≡ e.stop_loss) ⊎ (rule ≡ e.trailing_stop) ⊎ (rule ≡ e.take_profit)

  symbol_hits-parts :
      (e : SymbolExits F) {hits : List (Hit F)}
      → symbol_hits e p bar ≡ ok hits
      → (xs ys zs : List (Hit F)) × (stop_loss_hits e.stop_loss p bar ≡ ok xs)
        × (trailing_hits e.trailing_stop p bar ≡ ok ys)
        × (take_profit_hits e.take_profit p bar ≡ ok zs)
        × (hits ≡ xs ++ (ys ++ zs))
  unfolding symbol_hits
  symbol_hits-parts e h = elim (Result-cases (stop_loss_hits e.stop_loss p bar)) [
    | inl (x, a) ↦ absurd (ground arith)
    | inr (xs, a) ↦ elim (Result-cases (trailing_hits e.trailing_stop p bar)) [
      | inl (x, b) ↦ absurd (ground arith)
      | inr (ys, b) ↦ elim (Result-cases (take_profit_hits e.take_profit p bar)) [
        | inl (x, c) ↦ absurd (ground arith)
        | inr (zs, c) ↦ (xs, ys, zs, a, b, c, ground arith)
      ]
    ]
  ]

  symbol_trigger-parts :
      (c : RiskConfig F) {o : Option (Hit F)}
      → symbol_trigger c p bar ≡ ok o
      → (hits : List (Hit F)) × (symbol_hits c.symbol_exits p bar ≡ ok hits) × (o ≡ first_hit hits)
  unfolding symbol_trigger
  symbol_trigger-parts c h = elim (Result-cases (symbol_hits c.symbol_exits p bar)) [
    | inl (x, a) ↦ absurd (ground arith)
    | inr (hits, a) ↦ (hits, a, choose_hit-first c.intrabar_conflict hits (ground arith))
  ]

  pub symbol_trigger-IsRuleOf :
      (c : RiskConfig F) {h : Hit F}
      → symbol_trigger c p bar ≡ ok (some h)
      → IsRuleOf c.symbol_exits h.rule
  symbol_trigger-IsRuleOf c {h} e =
      let exits = c.symbol_exits in
      let (hits, a, first) = symbol_trigger-parts c e in
      let (xs, ys, zs, ex, ey, ez, joined) = symbol_hits-parts exits a in
      let P : Hit F → Type 0 = λ g. IsRuleOf exits g.rule in
      first_hit-All P hits
        (subst (All P) (sym joined) (
          All-append P xs (ys ++ zs)
            (All-map _ P (λ g k. inl k.0) xs (stop_loss_hits-AreOf exits.stop_loss ex))
            (All-append P ys zs
              (All-map _ P (λ g k. inr (inl k.0)) ys (trailing_hits-AreOf exits.trailing_stop ey))
              (All-map _ P (λ g k. inr (inr k.0)) zs
                (take_profit_hits-AreOf exits.take_profit ez)))))
        (sym first)
