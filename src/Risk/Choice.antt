-- ===== src/Risk/Choice.antt =====
-- `_symbol_trigger` with validated rules: it raises only for the error policy, and prefers stops.
use bfbt.Base.{
  ◌≡◌, refl, ap, ◌∙◌, true, false, some, List, [], ◌∷◌, ◌++◌, arith, Bool-cases, inl, inr, ◌⊎◌,
}
use bfbt.Config.ExitRules.{ExitRule, SymbolExits, RiskConfig, ConflictPolicy, validate_rule}
use bfbt.Contracts.{ReasonCode}
use bfbt.Exec.{ok}
use bfbt.Exec.Laws.{Returns, Result-cases}
use bfbt.Float.{Float}
use bfbt.Risk.State.{Direction, EventType, RiskPosition, BarRow}
use bfbt.Risk.Trigger.{
  Hit, distance_of, against, worst_price, reaches_stop, stop_loss_hits, trailing_hits,
  take_profit_hits, symbol_hits, hit_order, first_hit, choose_hit, symbol_trigger, LevelKind,
  level_of,
}
use bfbt.Risk.Evaluate.{fraction_of}

module _ {F : Type 0} where
  -- The three rules of a configuration that pydantic has validated.
  pub record IsValidated (e : SymbolExits F) : Type 0 where
    pub stop_loss : validate_rule e.stop_loss ≡ ok tt
    pub trailing_stop : validate_rule e.trailing_stop ≡ ok tt
    pub take_profit : validate_rule e.take_profit ≡ ok tt

  validate_rule_distance :
      (rule : ExitRule F) (d : Direction)
      → validate_rule rule ≡ ok tt
      → rule.enabled ≡ true
      → (x : F) × (distance_of rule d ≡ ok x)
  unfolding validate_rule distance_of
  validate_rule_distance rule d h on = elim (Result-cases (distance_of rule d)) [
    | inl (e, failed) ↦ absurd (ground arith)
    | inr found ↦ found
  ]

  pub distance-cases :
      (rule : ExitRule F) (d : Direction)
      → validate_rule rule ≡ ok tt
      → (rule.enabled ≡ false) ⊎ ((x : F) × (distance_of rule d ≡ ok x))
  distance-cases rule d h = elim (Bool-cases rule.enabled) [
    | inl on ↦ inr (validate_rule_distance rule d h on)
    | inr off ↦ inl off
  ]

  validate_rule_fraction :
      (rule : ExitRule F) (one : F)
      → validate_rule rule ≡ ok tt
      → (x : F) × (fraction_of one rule ≡ ok x)
  unfolding validate_rule fraction_of
  validate_rule_fraction rule one h = elim (Result-cases (fraction_of one rule)) [
    | inl (e, failed) ↦ absurd (ground arith)
    | inr found ↦ found
  ]

  -- A rule that passed `validate_rule` has a distance for both directions if it is enabled, and a
  -- fraction wherever its action needs one: the assertion of `_distance` and the conversion of
  -- `reduce_fraction` in `evaluate` cannot fail.
  pub validate_rule_sound :
      (rule : ExitRule F) (d : Direction) (one : F)
      → validate_rule rule ≡ ok tt
      → (rule.enabled ≡ true → (x : F) × (distance_of rule d ≡ ok x))
        × ((x : F) × (fraction_of one rule ≡ ok x))
  validate_rule_sound rule d one h =
      (validate_rule_distance rule d h, validate_rule_fraction rule one h)

module _ {F : Type 0} ⦃f : Float F⦄ where
  stop_loss_hits-Returns :
      (rule : ExitRule F) (p : RiskPosition F) (bar : BarRow F)
      → validate_rule rule ≡ ok tt
      → Returns (stop_loss_hits rule p bar)
  unfolding stop_loss_hits
  stop_loss_hits-Returns rule p bar h = elim (Result-cases (stop_loss_hits rule p bar)) [
    | inl (e, failed) ↦ absurd (ground (arith, distance-cases rule p.direction h))
    | inr found ↦ found
  ]

  trailing_hits-Returns :
      (rule : ExitRule F) (p : RiskPosition F) (bar : BarRow F)
      → validate_rule rule ≡ ok tt
      → Returns (trailing_hits rule p bar)
  unfolding trailing_hits
  trailing_hits-Returns rule p bar h = elim (Result-cases (trailing_hits rule p bar)) [
    | inl (e, failed) ↦ absurd (ground (arith, distance-cases rule p.direction h))
    | inr found ↦ found
  ]

  take_profit_hits-Returns :
      (rule : ExitRule F) (p : RiskPosition F) (bar : BarRow F)
      → validate_rule rule ≡ ok tt
      → Returns (take_profit_hits rule p bar)
  unfolding take_profit_hits
  take_profit_hits-Returns rule p bar h = elim (Result-cases (take_profit_hits rule p bar)) [
    | inl (e, failed) ↦ absurd (ground (arith, distance-cases rule p.direction h))
    | inr found ↦ found
  ]

  pub level_of-Returns :
      (rule : ExitRule F) (p : RiskPosition F) (kind : LevelKind)
      → validate_rule rule ≡ ok tt
      → Returns (level_of rule p kind)
  unfolding level_of
  level_of-Returns rule p kind h = elim (Result-cases (level_of rule p kind)) [
    | inl (e, failed) ↦ absurd (ground (arith, distance-cases rule p.direction h))
    | inr found ↦ found
  ]

  choose_worst :
      (hits : List (Hit F)) → choose_hit ConflictPolicy.worst_case hits ≡ ok (first_hit hits)
  unfolding choose_hit
  choose_worst [] = refl
  choose_worst (a ∷ []) = refl
  choose_worst (a ∷ b ∷ hits) = refl

  pub symbol_hits_lem :
      (e : SymbolExits F) (p : RiskPosition F) (bar : BarRow F) (xs ys zs : List (Hit F))
      → stop_loss_hits e.stop_loss p bar ≡ ok xs
      → trailing_hits e.trailing_stop p bar ≡ ok ys
      → take_profit_hits e.take_profit p bar ≡ ok zs
      → symbol_hits e p bar ≡ ok (xs ++ (ys ++ zs))
  unfolding symbol_hits
  symbol_hits_lem e p bar xs ys zs a b c = rw (a, b, c)

  symbol_trigger_worst :
      (c : RiskConfig F) (p : RiskPosition F) (bar : BarRow F) (hits : List (Hit F))
      → c.intrabar_conflict ≡ ConflictPolicy.worst_case
      → symbol_hits c.symbol_exits p bar ≡ ok hits
      → symbol_trigger c p bar ≡ ok (first_hit hits)
  unfolding symbol_trigger
  symbol_trigger_worst c p bar hits worst h = ground (arith, choose_worst hits)

  -- With validated rules and the worst-case policy `_symbol_trigger` never raises.
  pub symbol_trigger-Returns :
      (c : RiskConfig F) (p : RiskPosition F) (bar : BarRow F)
      → IsValidated c.symbol_exits
      → c.intrabar_conflict ≡ ConflictPolicy.worst_case
      → Returns (symbol_trigger c p bar)
  symbol_trigger-Returns c p bar v worst =
      let (xs, a) = stop_loss_hits-Returns c.symbol_exits.stop_loss p bar v.stop_loss in
      let (ys, b) = trailing_hits-Returns c.symbol_exits.trailing_stop p bar v.trailing_stop in
      let (zs, d) = take_profit_hits-Returns c.symbol_exits.take_profit p bar v.take_profit in
      let hits = symbol_hits_lem c.symbol_exits p bar xs ys zs a b d in
      (first_hit (xs ++ (ys ++ zs)), symbol_trigger_worst c p bar (xs ++ (ys ++ zs)) worst hits)

  stop_loss_hits_reached :
      (rule : ExitRule F) (p : RiskPosition F) (bar : BarRow F) (x : F)
      → rule.enabled ≡ true
      → distance_of rule p.direction ≡ ok x
      → reaches_stop p.direction
          (worst_price p.direction bar)
          (against p.direction p.average_entry_price x)
        ≡ true
      → (h : Hit F) × (stop_loss_hits rule p bar ≡ ok (h ∷ []))
        × (h.event_type ≡ EventType.stop_loss)
        × (h.level ≡ against p.direction p.average_entry_price x)
        × (h.observed ≡ worst_price p.direction bar)
        × (h.reason ≡ ReasonCode.stop_loss_triggered)
  unfolding stop_loss_hits
  stop_loss_hits_reached rule p bar x on d reached = (
    record {
      event_type = EventType.stop_loss;
      reason = ReasonCode.stop_loss_triggered;
      level = against p.direction p.average_entry_price x;
      observed = worst_price p.direction bar;
      rule = rule;
    },
    ground arith,
    refl,
    refl,
    refl,
    refl,
  )

  first_hit-stop :
      (h : Hit F) (hits : List (Hit F))
      → h.event_type ≡ EventType.stop_loss
      → first_hit (h ∷ hits) ≡ some h
  unfolding first_hit hit_order
  first_hit-stop h hits e = ground arith

  -- With validated rules and the worst-case policy, a bar that reaches the stop-loss level gives
  -- the stop loss at that level, whatever else the bar reaches.
  pub symbol_trigger_prefers_stop :
      (c : RiskConfig F) (p : RiskPosition F) (bar : BarRow F) (x : F)
      → IsValidated c.symbol_exits
      → c.intrabar_conflict ≡ ConflictPolicy.worst_case
      → c.symbol_exits.stop_loss.enabled ≡ true
      → distance_of c.symbol_exits.stop_loss p.direction ≡ ok x
      → reaches_stop p.direction
          (worst_price p.direction bar)
          (against p.direction p.average_entry_price x)
        ≡ true
      → (h : Hit F) × (symbol_trigger c p bar ≡ ok (some h))
        × (h.event_type ≡ EventType.stop_loss)
        × (h.level ≡ against p.direction p.average_entry_price x)
        × (h.observed ≡ worst_price p.direction bar)
        × (h.reason ≡ ReasonCode.stop_loss_triggered)
  symbol_trigger_prefers_stop c p bar x v worst on d reached =
      let (h, a, kind, level, seen, why) =
        stop_loss_hits_reached c.symbol_exits.stop_loss p bar x on d reached in
      let (ys, b) = trailing_hits-Returns c.symbol_exits.trailing_stop p bar v.trailing_stop in
      let (zs, t) = take_profit_hits-Returns c.symbol_exits.take_profit p bar v.take_profit in
      let hits = symbol_hits_lem c.symbol_exits p bar (h ∷ []) ys zs a b t in
      (
        h,
        symbol_trigger_worst c p bar (h ∷ (ys ++ zs)) worst hits
            ∙ ap ok (first_hit-stop h (ys ++ zs) kind),
        kind,
        level,
        seen,
        why,
      )
