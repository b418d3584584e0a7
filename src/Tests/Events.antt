-- ===== src/Tests/Events.antt =====
-- An arbitration of three intents for one symbol and one for another.
use bfbt.Base.{
  ℕ, ◌+◌, ◌≡◌, refl, Bool, true, false, not, ◌&&◌, none, some, List, [], ◌∷◌, ◌==◌, if◌then◌else◌,
  length, any, sort_by, filter, All, count, IsOrdered,
}
use bfbt.Contracts.{ReasonCode}
use bfbt.Exec.{Result, ok, err}
use bfbt.Rank.Row.{Side}
use bfbt.Events.Intent.{
  EventError, Arbitrator, RawIntent, Intent, intent_before, check_intent, normalize,
}
use bfbt.Events.Arbitrate.{ArbitrationBatch, has_key, arbitrate}
use bfbt.Events.Winner.{has_id, IsDistinct, is_eligible}
use bfbt.Events.Normal.{IsNormal, normalize-IsNormal}
use bfbt.Events.Result.{IsBest}
use bfbt.Events.Arbitrated.{has_trace_id, IsSettled}
use bfbt.Events.Batch.{
  arbitrate_one_winner, arbitrate-IsBest, arbitrate-IsSettled, arbitrate_keeps_all,
}
use bfbt.Risk.State.{Frame}
use bfbt.Events.Link.{
  RiskEventRow, LinkedTrade, InstructionOutcome, raw_links, link_risk_event_fills,
}
use bfbt.Events.Resolved.{AreLinked, link_risk_event_fills-AreLinked}
use bfbt.Events.Trades.{TradeRow, TradeLinkBatch, is_nonzero, link_trades}
use bfbt.Events.OneFill.{IsOneToOne, link_trades-IsOneToOne}
use bfbt.Tests.Fixed.{fixed_float, Fixed, plus}

abbrev arbitrator : Arbitrator
arbitrator = record { run_id = 7; max_pending_intents = 10; is_explicit = λ n. not (n == 0) }

abbrev raw_intent : (id symbol priority : ℕ) → RawIntent Fixed
raw_intent id symbol priority = record {
  instruction_id = id;
  decision_time = some 10;
  fill_time = some 20;
  rank_source_time = none;
  symbol = symbol;
  side = some Side.long;
  instruction_mode = 1;
  requested_delta_notional = some (plus 500);
  constrained_delta_notional = some (plus 500);
  requested_target_weight = none;
  source_event_id = none;
  reason_code = some ReasonCode.accepted;
  priority = priority;
  run_id = 7;
}

-- Symbol 4 is in its cooldown, and has only a scheduled intent; symbol 3 has three intents.
abbrev raw_intents : List (RawIntent Fixed)
raw_intents = raw_intent 1 3 400 ∷ raw_intent 2 4 400 ∷ raw_intent 5 3 200 ∷ raw_intent 6 3 200 ∷ []

abbrev only_four : List ℕ
only_four = 4 ∷ []

-- The rows that `normalize` makes of them.
abbrev rows_of : Result EventError (List (Intent Fixed)) → List (Intent Fixed)
rows_of (ok rows) = rows
rows_of (err e) = []

abbrev intents : List (Intent Fixed)
intents = rows_of (normalize arbitrator true true (some raw_intents))

intents_normal : normalize arbitrator true true (some raw_intents) ≡ ok intents
unfolding normalize check_intent
intents_normal = refl

normalize-IsNormal_example :
    All (IsNormal arbitrator) intents × IsOrdered intent_before intents × IsDistinct intents
normalize-IsNormal_example = normalize-IsNormal arbitrator true true raw_intents intents_normal

arbitrate_one_winner_example :
    (batch : ArbitrationBatch Fixed) × (arbitrate arbitrator only_four true (some raw_intents)
      ≡ ok batch)
    × ((k : ℕ × ℕ)
        → count (has_key k) batch.accepted_intents
          ≡ (if any (λ i. has_key k i && is_eligible only_four i) intents then 1 else 0))
arbitrate_one_winner_example =
    arbitrate_one_winner arbitrator only_four true raw_intents intents_normal

arbitrate-IsBest_example :
    (batch : ArbitrationBatch Fixed) × (arbitrate arbitrator only_four true (some raw_intents)
      ≡ ok batch)
    × All (IsBest only_four intents) batch.accepted_intents
arbitrate-IsBest_example = arbitrate-IsBest arbitrator only_four true raw_intents intents_normal

arbitrate-IsSettled_example :
    (batch : ArbitrationBatch Fixed) × (arbitrate arbitrator only_four true (some raw_intents)
      ≡ ok batch)
    × All (IsSettled batch.accepted_intents) batch.instructions
arbitrate-IsSettled_example =
    arbitrate-IsSettled arbitrator only_four true raw_intents intents_normal

arbitrate_keeps_all_example :
    (batch : ArbitrationBatch Fixed) × (arbitrate arbitrator only_four true (some raw_intents)
      ≡ ok batch)
    × ((n : ℕ)
        → (count (has_id n) batch.instructions ≡ count (has_id n) intents)
          × (count (has_trace_id n) batch.trace ≡ count (has_id n) intents))
    × (length batch.instructions ≡ batch.input_count)
    × (batch.accepted_count + batch.suppressed_count ≡ batch.input_count)
arbitrate_keeps_all_example =
    arbitrate_keeps_all arbitrator only_four true raw_intents intents_normal

-- One accepted intent, its filled trade and a trade that was not filled.
abbrev linked_intents : List (RawIntent Fixed)
linked_intents = raw_intent 5 3 200 ∷ []

abbrev trade_of : (symbol : ℕ) → Bool → TradeRow
trade_of symbol is_filled = record {
  fill_time = 20;
  symbol = symbol;
  is_filled = is_filled;
  run_id = 7;
}

abbrev trades : Frame TradeRow
trades = record { has_columns = true; rows = trade_of 3 true ∷ trade_of 4 false ∷ [] }

abbrev accepted_rows : List (Intent Fixed)
accepted_rows = rows_of (normalize arbitrator false true (some linked_intents))

accepted_normal : normalize arbitrator false true (some linked_intents) ≡ ok accepted_rows
unfolding normalize check_intent
accepted_normal = refl

abbrev no_links : TradeLinkBatch
no_links = record { trades = []; linked_instruction_count = 0; linked_risk_event_count = 0 }

abbrev batch_of : Result EventError TradeLinkBatch → TradeLinkBatch
batch_of (ok b) = b
batch_of (err e) = no_links

abbrev links : TradeLinkBatch
links = batch_of (link_trades arbitrator trades true (some linked_intents))

trades_linked : link_trades arbitrator trades true (some linked_intents) ≡ ok links
unfolding normalize check_intent link_trades sort_by
trades_linked = refl

link_trades-IsOneToOne_example : IsOneToOne trades.rows (filter is_nonzero accepted_rows) links
link_trades-IsOneToOne_example =
    link_trades-IsOneToOne arbitrator trades true (some linked_intents) accepted_normal
      trades_linked

-- Event 1 has a trade, event 2 is suppressed.
abbrev event : (id : ℕ) → RiskEventRow
event id = record { event_id = id; fill_time = none; reason_code = ReasonCode.accepted; run_id = 0 }

abbrev events : Frame RiskEventRow
events = record { has_columns = true; rows = event 1 ∷ event 2 ∷ [] }

abbrev filled_trades : Frame LinkedTrade
filled_trades = record {
  has_columns = true;
  rows = record { fill_time = some 20; source_event_id = some 1; is_filled = true } ∷ [];
}

abbrev outcomes : Frame InstructionOutcome
outcomes = record {
  has_columns = true;
  rows =
      record { source_event_id = some 2; reason_code = ReasonCode.suppressed_by_higher_priority }
      ∷ [];
}

abbrev same_reason : ReasonCode → ReasonCode → Bool
same_reason ReasonCode.suppressed_by_higher_priority ReasonCode.suppressed_by_higher_priority = true
same_reason _ _ = false

abbrev filled_event : RiskEventRow
filled_event = record (event 1) { fill_time = some 20; run_id = 7 }

abbrev suppressed_event : RiskEventRow
suppressed_event = record (event 2) {
  reason_code = ReasonCode.suppressed_by_higher_priority;
  run_id = 7;
}

abbrev resolved : List RiskEventRow
resolved = filled_event ∷ suppressed_event ∷ []

events_linked :
    link_risk_event_fills same_reason 7 events filled_trades (some outcomes) ≡ ok resolved
unfolding link_risk_event_fills
events_linked = refl

link_risk_event_fills-AreLinked_example :
    AreLinked 7 (raw_links filled_trades.rows) events.rows resolved
link_risk_event_fills-AreLinked_example =
    link_risk_event_fills-AreLinked same_reason 7 events filled_trades (some outcomes) events_linked
