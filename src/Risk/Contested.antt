-- ===== src/Risk/Contested.antt =====
-- `_symbol_trigger` under the error policy, told by which of the three levels the bar reaches.
use bfbt.Base.{
  ◌+◌, ◌≤◌, ◌≡◌, refl, ◌∙◌, Bool, true, false, ◌&&◌, ◌||◌, Option, List, [], ◌∷◌, ◌++◌, arith,
  length, inl, inr, ◌⊎◌, is_some, if◌then◌else◌, length-append, leb,
}
use bfbt.Config.ExitRules.{ExitRule, SymbolExits, RiskConfig, ConflictPolicy, validate_rule}
use bfbt.Exec.{ok, err}
use bfbt.Exec.Laws.{Result-cases}
use bfbt.Float.{Float}
use bfbt.Risk.State.{Direction, RiskError, RiskPosition, BarRow}
use bfbt.Risk.Trigger.{
  Hit, distance_of, against, in_favor, worst_price, best_price, reaches_stop, reaches_target,
  trailing_active, stop_loss_hits, trailing_hits, take_profit_hits, symbol_hits, first_hit,
  choose_hit, symbol_trigger,
}
use bfbt.Risk.Choice.{IsValidated, distance-cases, symbol_hits_lem}

module _ {F : Type 0} ⦃f : Float F⦄ where
  -- Whether a rule is on and its level, which its distance gives, passes a test.
  abbrev pub reaches : ExitRule F → Direction → (F → Bool) → Bool
  reaches rule d test = rule.enabled && elim (distance_of rule d) [ err e ↦ false | ok x ↦ test x ]

  abbrev pub stop_loss_reached : ExitRule F → RiskPosition F → BarRow F → Bool
  stop_loss_reached rule p bar = reaches rule p.direction (λ x.
      reaches_stop p.direction (worst_price p.direction bar)
        (against p.direction p.average_entry_price x))

  abbrev pub trailing_reached : ExitRule F → RiskPosition F → BarRow F → Bool
  trailing_reached rule p bar =
      trailing_active rule p
      && reaches rule p.direction (λ x.
        reaches_stop p.direction (worst_price p.direction bar)
          (against p.direction p.favorable_extreme x))

  abbrev pub take_profit_reached : ExitRule F → RiskPosition F → BarRow F → Bool
  take_profit_reached rule p bar = reaches rule p.direction (λ x.
      reaches_target p.direction (best_price p.direction bar)
        (in_favor p.direction p.average_entry_price x))

  abbrev pub is_reached : SymbolExits F → RiskPosition F → BarRow F → Bool
  is_reached e p bar =
      stop_loss_reached e.stop_loss p bar
      || trailing_reached e.trailing_stop p bar
      || take_profit_reached e.take_profit p bar

  -- The bar reaches two of the three levels, or all.
  abbrev pub is_contested : SymbolExits F → RiskPosition F → BarRow F → Bool
  is_contested e p bar =
      let a = stop_loss_reached e.stop_loss p bar in
      let b = trailing_reached e.trailing_stop p bar in
      let c = take_profit_reached e.take_profit p bar in (a && b) || (a && c) || (b && c)

  stop_loss_hits-Counts :
      (rule : ExitRule F) (p : RiskPosition F) (bar : BarRow F)
      → validate_rule rule ≡ ok tt
      → (hits : List (Hit F)) × (stop_loss_hits rule p bar ≡ ok hits)
        × (length hits ≡ (if stop_loss_reached rule p bar then 1 else 0))
  unfolding stop_loss_hits
  stop_loss_hits-Counts rule p bar h = elim (Result-cases (stop_loss_hits rule p bar)) [
    | inl (e, failed) ↦ absurd (ground (arith, distance-cases rule p.direction h))
    | inr (hits, found) ↦ (hits, found, ground (arith, found, distance-cases rule p.direction h))
  ]

  trailing_hits-Counts :
      (rule : ExitRule F) (p : RiskPosition F) (bar : BarRow F)
      → validate_rule rule ≡ ok tt
      → (hits : List (Hit F)) × (trailing_hits rule p bar ≡ ok hits)
        × (length hits ≡ (if trailing_reached rule p bar then 1 else 0))
  unfolding trailing_hits
  trailing_hits-Counts rule p bar h = elim (Result-cases (trailing_hits rule p bar)) [
    | inl (e, failed) ↦ absurd (ground (arith, distance-cases rule p.direction h))
    | inr (hits, found) ↦ (hits, found, ground (arith, found, distance-cases rule p.direction h))
  ]

  take_profit_hits-Counts :
      (rule : ExitRule F) (p : RiskPosition F) (bar : BarRow F)
      → validate_rule rule ≡ ok tt
      → (hits : List (Hit F)) × (take_profit_hits rule p bar ≡ ok hits)
        × (length hits ≡ (if take_profit_reached rule p bar then 1 else 0))
  unfolding take_profit_hits
  take_profit_hits-Counts rule p bar h = elim (Result-cases (take_profit_hits rule p bar)) [
    | inl (e, failed) ↦ absurd (ground (arith, distance-cases rule p.direction h))
    | inr (hits, found) ↦ (hits, found, ground (arith, found, distance-cases rule p.direction h))
  ]

  is_some-first_hit : (hits : List (Hit F)) → is_some (first_hit hits) ≡ leb 1 (length hits)
  unfolding first_hit
  is_some-first_hit [] = refl
  is_some-first_hit (h ∷ hits) = ground (arith, is_some-first_hit hits)

  choose_strictly :
      (hits : List (Hit F))
      → ((2 ≤ length hits)
          × (choose_hit ConflictPolicy.error hits ≡ err RiskError.conflicting_triggers))
        ⊎ ((length hits ≤ 1) × (choose_hit ConflictPolicy.error hits ≡ ok (first_hit hits)))
  unfolding choose_hit
  choose_strictly [] = inr (omega arith, refl)
  choose_strictly (a ∷ []) = inr (omega arith, refl)
  choose_strictly (a ∷ b ∷ hits) = inl (omega arith, refl)

  symbol_trigger_strict :
      (c : RiskConfig F) (p : RiskPosition F) (bar : BarRow F) (hits : List (Hit F))
      → c.intrabar_conflict ≡ ConflictPolicy.error
      → symbol_hits c.symbol_exits p bar ≡ ok hits
      → symbol_trigger c p bar ≡ choose_hit ConflictPolicy.error hits
  unfolding symbol_trigger
  symbol_trigger_strict c p bar hits strict h = rw (symbol_trigger, h, strict) refl

  -- With validated rules and the error policy, `_symbol_trigger` raises the conflict exactly on a
  -- bar that reaches two or more of the stop-loss, trailing-stop and take-profit levels; on every
  -- other bar it returns, with a hit exactly when the bar reaches a level.
  pub symbol_trigger_contested :
      (c : RiskConfig F) (p : RiskPosition F) (bar : BarRow F)
      → IsValidated c.symbol_exits
      → c.intrabar_conflict ≡ ConflictPolicy.error
      → ((is_contested c.symbol_exits p bar ≡ true)
          × (symbol_trigger c p bar ≡ err RiskError.conflicting_triggers))
        ⊎ ((is_contested c.symbol_exits p bar ≡ false)
            × (hit : Option (Hit F)) × (symbol_trigger c p bar ≡ ok hit)
            × (is_some hit ≡ is_reached c.symbol_exits p bar))
  symbol_trigger_contested c p bar v strict =
      let e = c.symbol_exits in
      let (xs, a, m) = stop_loss_hits-Counts e.stop_loss p bar v.stop_loss in
      let (ys, b, n) = trailing_hits-Counts e.trailing_stop p bar v.trailing_stop in
      let (zs, d, k) = take_profit_hits-Counts e.take_profit p bar v.take_profit in
      let hits = xs ++ (ys ++ zs) in
      let found = symbol_hits_lem e p bar xs ys zs a b d in
      let long : length hits ≡ length xs + (length ys + length zs) =
        ground (arith, length-append xs (ys ++ zs), length-append ys zs) in
      let some_hit = is_some-first_hit hits in
      let trigger = symbol_trigger_strict c p bar hits strict found in
      elim (choose_strictly hits) [
        | inl (many, raised) ↦ inl (ground (arith, m, n, k, long, many), trigger ∙ raised)
        | inr (few, chosen) ↦ inr (
          ground (arith, m, n, k, long, few),
          first_hit hits,
          trigger ∙ chosen,
          ground (arith, m, n, k, long, some_hit),
        )
      ]
