-- ===== src/Risk/Trigger.antt =====
-- `_distance`, `_trailing_active`, `_level`, `_symbol_trigger` and `_portfolio_trigger`.
use bfbt.Base.{
  ℕ, Bool, true, not, ◌&&◌, Option, none, some, List, [], ◌∷◌, ◌++◌, ltb, if◌then◌else◌,
}
use bfbt.Config.ExitRules.{ExitRule, SymbolExits, RiskConfig, ConflictPolicy}
use bfbt.Contracts.{ReasonCode}
use bfbt.Exec.{Result, ok, err}
use bfbt.Float.{Float}
use bfbt.Risk.State.{Direction, EventType, RiskError, RiskPosition, BarRow, Machine}

-- The first argument for a long position, the second for a short one.
abbrev pub by_direction {ℓ} : {A : Type ℓ} → Direction → A → A → A
by_direction Direction.long a b = a
by_direction Direction.short a b = b

-- `(event_type, reason, level, observed, rule)`
pub record Hit (F : Type 0) : Type 0 where
  pub event_type : EventType
  pub reason : ReasonCode
  pub level : F
  pub observed : F
  pub rule : ExitRule F

-- `(event_type, reason, level)`
pub record PortfolioHit (F : Type 0) : Type 0 where
  pub event_type : EventType
  pub reason : ReasonCode
  pub level : F

-- The three kinds of level that `_level` computes.
pub data LevelKind : Type 0 where
  stop take trailing : LevelKind

-- `{"stop_loss": 0, "trailing_stop": 1, "take_profit": 2}`
unfoldable pub hit_order : EventType → ℕ
hit_order EventType.stop_loss = 0
hit_order EventType.trailing_stop = 1
hit_order _ = 2

module _ {F : Type 0} where
  or_assert : Option F → Result RiskError F
  or_assert none = err RiskError.no_distance
  or_assert (some x) = ok x

  -- `_distance`; a rule with no distance fails the assertion.
  unfoldable pub distance_of : ExitRule F → Direction → Result RiskError F
  unfolding or_assert
  distance_of rule d = elim rule.distance [
    | some x ↦ ok x
    | none ↦ or_assert (by_direction d rule.long_distance rule.short_distance)
  ]

  -- `sorted(hits, key=order)[0]`: the first of least order.
  unfoldable pub first_hit : List (Hit F) → Option (Hit F)
  unfolding hit_order
  first_hit [] = none
  first_hit (h ∷ hs) = elim (first_hit hs) [
    | none ↦ some h
    | some g ↦ if ltb (hit_order g.event_type) (hit_order h.event_type) then some g else some h
  ]

  unfoldable pub choose_hit : ConflictPolicy → List (Hit F) → Result RiskError (Option (Hit F))
  unfolding first_hit
  choose_hit ConflictPolicy.error (a ∷ b ∷ hs) = err RiskError.conflicting_triggers
  choose_hit _ hs = ok (first_hit hs)

module _ {F : Type 0} ⦃f : Float F⦄ where
  -- `price * (1.0 - distance)` for a long position and `price * (1.0 + distance)` for a short one.
  unfoldable pub against : Direction → F → F → F
  against d price distance =
      f.mul price (by_direction d (f.sub f.unit distance) (f.add f.unit distance))

  -- `price * (1.0 + distance)` for a long position and `price * (1.0 - distance)` for a short one.
  unfoldable pub in_favor : Direction → F → F → F
  in_favor d price distance =
      f.mul price (by_direction d (f.add f.unit distance) (f.sub f.unit distance))

  -- `_trailing_active`
  unfoldable pub trailing_active : ExitRule F → RiskPosition F → Bool
  unfolding in_favor
  trailing_active rule p = elim rule.activation_distance [
    | none ↦ true
    | some a ↦
        let threshold = in_favor p.direction p.average_entry_price a in
        by_direction p.direction (f.le threshold p.favorable_extreme)
          (f.le p.favorable_extreme threshold)
  ]

  -- The price of the bar that is worst for the position, and whether it reached a stop level.
  unfoldable pub worst_price : Direction → BarRow F → F
  worst_price d bar = by_direction d bar.low bar.high

  unfoldable pub best_price : Direction → BarRow F → F
  best_price d bar = by_direction d bar.high bar.low

  unfoldable pub reaches_stop : Direction → F → F → Bool
  reaches_stop d observed level = by_direction d (f.le observed level) (f.le level observed)

  unfoldable pub reaches_target : Direction → F → F → Bool
  reaches_target d observed level = by_direction d (f.le level observed) (f.le observed level)

  -- A stop at `distance` against the position from `anchor`.
  stop_hit :
      EventType
      → ReasonCode
      → ExitRule F
      → Direction
      → F
      → BarRow F
      → Result RiskError (List (Hit F))
  unfolding distance_of against worst_price reaches_stop
  stop_hit kind reason rule d anchor bar = elim (distance_of rule d) [
    | err e ↦ err e
    | ok distance ↦
        let level = against d anchor distance in
        let observed = worst_price d bar in
        if reaches_stop d observed level
        then ok (
            record {
              event_type = kind;
              reason = reason;
              level = level;
              observed = observed;
              rule = rule;
            }
            ∷ [])
        else ok []
  ]

  unfoldable pub stop_loss_hits :
      ExitRule F → RiskPosition F → BarRow F → Result RiskError (List (Hit F))
  unfolding stop_hit
  stop_loss_hits rule p bar =
      if rule.enabled
      then stop_hit EventType.stop_loss ReasonCode.stop_loss_triggered rule p.direction
          p.average_entry_price bar
      else ok []

  unfoldable pub trailing_hits :
      ExitRule F → RiskPosition F → BarRow F → Result RiskError (List (Hit F))
  unfolding stop_hit trailing_active
  trailing_hits rule p bar =
      if rule.enabled && trailing_active rule p
      then stop_hit EventType.trailing_stop ReasonCode.trailing_stop_triggered rule p.direction
          p.favorable_extreme bar
      else ok []

  target_hit : ExitRule F → RiskPosition F → BarRow F → Result RiskError (List (Hit F))
  unfolding distance_of in_favor best_price reaches_target
  target_hit rule p bar = elim (distance_of rule p.direction) [
    | err e ↦ err e
    | ok distance ↦
        let level = in_favor p.direction p.average_entry_price distance in
        let observed = best_price p.direction bar in
        if reaches_target p.direction observed level
        then ok (
            record {
              event_type = EventType.take_profit;
              reason = ReasonCode.take_profit_triggered;
              level = level;
              observed = observed;
              rule = rule;
            }
            ∷ [])
        else ok []
  ]

  unfoldable pub take_profit_hits :
      ExitRule F → RiskPosition F → BarRow F → Result RiskError (List (Hit F))
  unfolding target_hit
  take_profit_hits rule p bar = if rule.enabled then target_hit rule p bar else ok []

  append_hits :
      Result RiskError (List (Hit F))
      → Result RiskError (List (Hit F))
      → Result RiskError (List (Hit F))
  append_hits (ok xs) (ok ys) = ok (xs ++ ys)
  append_hits (ok xs) (err e) = err e
  append_hits (err e) r = err e

  -- The hits in the order in which `_symbol_trigger` appends them.
  unfoldable pub symbol_hits :
      SymbolExits F → RiskPosition F → BarRow F → Result RiskError (List (Hit F))
  unfolding append_hits
  symbol_hits e p bar =
      append_hits (stop_loss_hits e.stop_loss p bar)
        (append_hits (trailing_hits e.trailing_stop p bar) (take_profit_hits e.take_profit p bar))

  -- `_symbol_trigger`
  unfoldable pub symbol_trigger :
      RiskConfig F → RiskPosition F → BarRow F → Result RiskError (Option (Hit F))
  unfolding choose_hit
  symbol_trigger c p bar = elim (symbol_hits c.symbol_exits p bar) [
    | err e ↦ err e
    | ok hits ↦ choose_hit c.intrabar_conflict hits
  ]

  -- One configured exit: its level, and a candidate where the equity has reached it.
  portfolio_candidate :
      Option F → EventType → ReasonCode → (F → F) → (F → Bool) → List (PortfolioHit F)
  portfolio_candidate none kind reason level_at reached = []
  portfolio_candidate (some t) kind reason level_at reached =
      if reached (level_at t)
      then record { event_type = kind; reason = reason; level = level_at t } ∷ []
      else []

  -- The candidates in the order in which `_portfolio_trigger` appends them.
  unfoldable pub portfolio_candidates : Machine F → F → F → List (PortfolioHit F)
  unfolding portfolio_candidate
  portfolio_candidates m peak equity =
      let exits = m.config.portfolio_exits in
      portfolio_candidate exits.stop_loss EventType.portfolio_stop_loss
        ReasonCode.portfolio_stop_loss_triggered (λ t. f.mul m.initial_equity (f.sub f.unit t))
        (λ level. f.le equity level)
      ++ (portfolio_candidate exits.max_drawdown EventType.portfolio_max_drawdown
            ReasonCode.portfolio_max_drawdown_triggered (λ t. f.mul peak (f.sub f.unit t))
            (λ level. f.le equity level)
          ++ portfolio_candidate exits.take_profit EventType.portfolio_take_profit
              ReasonCode.portfolio_take_profit_triggered
              (λ t. f.mul m.initial_equity (f.add f.unit t)) (λ level. f.le level equity))

  first_candidate : List (PortfolioHit F) → Option (PortfolioHit F)
  first_candidate [] = none
  first_candidate (h ∷ hs) = some h

  -- `_portfolio_trigger`
  unfoldable pub portfolio_trigger : Machine F → F → F → Option (PortfolioHit F)
  unfolding portfolio_candidates first_candidate
  portfolio_trigger m peak equity = first_candidate (portfolio_candidates m peak equity)

  -- `_level`
  unfoldable pub level_of : ExitRule F → RiskPosition F → LevelKind → Result RiskError (Option F)
  unfolding distance_of against in_favor trailing_active
  level_of rule p kind =
      let d = p.direction in
      if not rule.enabled then ok none else elim (distance_of rule d) [
        | err e ↦ err e
        | ok distance ↦ elim kind [
          | stop ↦ ok (some (against d p.average_entry_price distance))
          | take ↦ ok (some (in_favor d p.average_entry_price distance))
          | trailing ↦
              if trailing_active rule p
              then ok (some (against d p.favorable_extreme distance))
              else ok none
        ]
      ]
