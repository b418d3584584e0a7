-- ===== src/Events/Trades.antt =====
-- `link_trades`: each filled trade belongs to one accepted intent.
use bfbt.Base.{
  ℕ, Bool, false, not, ◌&&◌, Option, none, some, List, [], ◌∷◌, ◌++◌, map, ltb, ◌==◌, if◌then◌else◌,
  is_some, length, filter, any, count,
}
use bfbt.Contracts.{ReasonCode}
use bfbt.Exec.{Result, ok, err}
use bfbt.Float.{Float}
use bfbt.Risk.State.{Frame}
use bfbt.Events.Intent.{EventError, Arbitrator, RawIntent, Intent, normalize}
use bfbt.Events.Arbitrate.{has_key}

-- A trade, as far as the links read it.
pub record TradeRow : Type 0 where
  pub fill_time : ℕ
  pub symbol : ℕ
  pub is_filled : Bool
  pub run_id : ℕ

-- A trade with the columns of its link.
pub record TradeLink : Type 0 where
  pub trade : TradeRow
  pub instruction_id : Option ℕ
  pub source_event_id : Option ℕ
  pub priority : Option ℕ
  pub instruction_reason_code : Option ReasonCode

pub record TradeLinkBatch : Type 0 where
  pub trades : List TradeLink
  pub linked_instruction_count : ℕ
  pub linked_risk_event_count : ℕ

abbrev pub trade_key : TradeRow → ℕ × ℕ
trade_key t = (t.fill_time, t.symbol)

-- Whether a trade has a fill time and a symbol.
abbrev pub is_trade_of : ℕ × ℕ → TradeRow → Bool
is_trade_of k t = (k.0 == t.fill_time) && (k.1 == t.symbol)

abbrev pub unlinked : TradeRow → TradeLink
unlinked t = record {
  trade = t;
  instruction_id = none;
  source_event_id = none;
  priority = none;
  instruction_reason_code = none;
}

-- `group_by(keys).len()` has a group of more than one filled trade.
unfoldable pub has_duplicate_trades : List TradeRow → Bool
has_duplicate_trades rows = any (λ t. ltb 1 (count (is_trade_of (trade_key t)) rows)) rows

abbrev pub or_unlinked : TradeRow → List TradeLink → List TradeLink
or_unlinked t [] = unlinked t ∷ []
or_unlinked t (x ∷ xs) = x ∷ xs

module _ {F : Type 0} where
  abbrev pub intent_key : Intent F → ℕ × ℕ
  intent_key i = (i.fill_time, i.symbol)

  -- The same of the intents.
  unfoldable pub has_duplicate_keys : List (Intent F) → Bool
  has_duplicate_keys rows = any (λ i. ltb 1 (count (has_key (intent_key i)) rows)) rows

  abbrev pub linked_by : TradeRow → Intent F → TradeLink
  linked_by t i = record {
    trade = t;
    instruction_id = some i.instruction_id;
    source_event_id = i.source_event_id;
    priority = some i.priority;
    instruction_reason_code = some i.reason_code;
  }

  -- `join(links, on=keys, how="left")`: a row for each match, or one without a link.
  unfoldable pub left_join : List (Intent F) → List TradeRow → List TradeLink
  left_join intents [] = []
  left_join intents (t ∷ trades) =
      or_unlinked t (map (linked_by t) (filter (has_key (trade_key t)) intents))
      ++ left_join intents trades

  -- `intents.join(filled.select(keys), on=keys, how="anti").height`
  unfoldable pub has_unmatched : List TradeRow → List (Intent F) → Bool
  has_unmatched filled intents = any (λ i. count (is_trade_of (intent_key i)) filled == 0) intents

-- `with_columns(pl.lit(self.run_id).alias("run_id"))`
unfoldable pub stamp : ℕ → TradeLink → TradeLink
stamp run_id x = record x { trade = record (x.trade) { run_id = run_id } }

module _ {F : Type 0} ⦃f : Float F⦄ where
  -- `pl.col("constrained_delta_notional").fill_null(0.0).abs() > EPSILON`
  unfoldable pub is_nonzero : Intent F → Bool
  is_nonzero i = elim i.constrained_delta_notional [
    | none ↦ f.lt f.epsilon (f.abs f.nought)
    | some x ↦ f.lt f.epsilon (f.abs x)
  ]

  -- The tests and the join, of the intents that do something.
  unfoldable pub link_intents :
      Arbitrator → List TradeRow → List (Intent F) → Result EventError TradeLinkBatch
  unfolding has_duplicate_trades has_duplicate_keys left_join has_unmatched stamp
  link_intents a trades intents =
      let filled = filter (λ t. t.is_filled) trades in
      let linked = left_join intents trades in
      if has_duplicate_keys intents
      then err EventError.ambiguous_intents
      else if has_duplicate_trades filled
      then err EventError.duplicate_trades
      else if any (λ x. x.trade.is_filled && not (is_some x.instruction_id)) linked
      then err EventError.unlinked_trade
      else if has_unmatched filled intents
      then err EventError.unlinked_intent
      else ok (record {
        trades = map (stamp a.run_id) linked;
        linked_instruction_count = length filled;
        linked_risk_event_count = count (λ x. is_some x.source_event_id) linked;
      })

  -- `link_trades`
  unfoldable pub link_trades :
      Arbitrator
      → Frame TradeRow
      → Bool
      → Option (List (RawIntent F))
      → Result EventError TradeLinkBatch
  unfolding link_intents is_nonzero
  link_trades a trades well_typed accepted =
      if not trades.has_columns
      then err EventError.missing_columns
      else elim (normalize a false well_typed accepted) [
        | err e ↦ err e
        | ok rows ↦ link_intents a trades.rows (filter is_nonzero rows)
      ]
