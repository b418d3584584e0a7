-- ===== src/Lib.antt =====
-- bfbt: a verification library for the decision core of the backtester.
--
-- The risk machine. Risk models src/bfbt/risk/state_machine.py, a file for each group of the
-- methods of RiskStateMachine: State (the attributes, the records and the errors), Input
-- (`_bars`, `_position_rows`), Trigger (`_symbol_trigger`, `_portfolio_trigger`, `_level`,
-- `_trailing_active`, `_distance`), Book (`_sync_positions`, `_queue`, `_activate_cooldown`,
-- `_update_extremes`, `_event_id`), Evaluate with Symbols, Portfolio and Rows (`evaluate`,
-- `_state_snapshot`, the budget checks), Fill (`drain_due`, `reentry_decision`, `finish`) and
-- Checkpoint (`__init__`, `_restore`, `checkpoint`). A method is a function from the state to a
-- result and a state, so what a method has written before it raises is kept. The proofs stand in
-- Runs (what a call that returns went through), Steps and Phase (its firings as a step relation
-- and what each firing keeps), Sync, Clock, Invariant and Preserve (well-formed states), Drain,
-- Session, Outcome, Exits, Numbers, Hits, Choice and Contested.
--
-- The rank selections. Rank models src/bfbt/portfolio/history.py: Row (the rows of the frames and
-- their sort orders), Snapshots (`iter_rank_snapshots`), Descent (RankDescentTracker) and History
-- (RankHistoryBuffer, `_requested`, `_requests`, `_split_snapshots`). Refine, Taken and Trace
-- prove what the tracker does, Lag what the buffer does, and Requested what `_requested` lists.
-- Crossover models src/bfbt/portfolio/crossover.py (FactorCrossoverTracker), with its proofs in
-- Adjacent and Crossing. The batches that polars collects are an argument, and the generator is
-- the list of what it yields with the error that ends it. `select` keeps only the state that the
-- class keeps; the frames it returns are its result.
--
-- Config.Selection models the selection rules, with Config.Disjoint on their sides, and
-- Config.ExitRules models the exit rules of src/bfbt/config/backtest.py with their validators, and
-- Contracts models the vocabulary of src/bfbt/data/v2_contracts.py.
--
-- The event arbitration. Events models src/bfbt/engine/events.py: Intent (`__init__` and
-- `normalize` of EventArbitrator) and Arbitrate (`arbitrate`, a function for each step of its
-- loops). Count, Winner, Groups, Kept, Best, Normal, Result and Arbitrated prove what the group
-- loop does, and Batch states it of `arbitrate`. Trades models `link_trades`, with its proofs in
-- OneFill, and Link models `link_risk_event_fills`, with its proofs in Resolved.
--
-- The position engine. Position models src/bfbt/portfolio/instructions.py: State (the records,
-- `__init__`, `_restore`, `checkpoint`), Value (`_validate_marks`, `_notionals`,
-- `_account_snapshot`, `_position_snapshot`), Execute (`_execute`, `_settle_rolling_round`,
-- `apply_cashflow`), Limit (`_constraint_violations`, `_limit_close_turnover`, `_limit_opening`),
-- Legs (`_base_notional`, `_reverse_legs`, `_round_delta`, the branches of `_process_one`),
-- Selections (`_selection_rows`), Process (`_process_one`, `_instruction_row`) and Batch
-- (`process`, `apply_external_deltas`). Tracked, Kept, Preserve and Reach prove what every method
-- keeps, Counted and Numbered follow the sequence, Bisect is about the limits, Safe about
-- validated sizings, and Saved about checkpoints. It reads Config.Sizing, the sizing part of
-- src/bfbt/config/backtest.py, and Costs, which models src/bfbt/engine/costs.py,
-- src/bfbt/engine/funding.py and the fills of src/bfbt/engine/execution.py.
--
-- The chunk planner. Chunks.Plan models src/bfbt/performance/chunks.py with its proofs in
-- Chunks.Partition. Of src/bfbt/performance/recovery.py, Chunks.Identity models the fingerprint of
-- a plan and the identity of a run, Chunks.Workspace `committed` and `next_chunk`, and
-- Chunks.Transaction `begin`, the three writes and `commit`. Accepted, Resume and Committed, with
-- Recorded, Readable and Placed, tie them to the planner and to each other. A chunk's directory is
-- its ordinal, its checkpoint where that parses, and the files that its paths resolve to.
-- Config.Durations models src/bfbt/config/durations.py, with its grammar in Config.Grammar.
--
-- Base, Dict and Exec hold what the models share: Boolean tests, Python dicts as association
-- lists in insertion order, and methods that raise. Float is the interface to Python's floats,
-- with `min` and `max` as Python computes them; a law of finite floats is assumed only where a
-- theorem names it. Symbols and ids are naturals, since they are only compared, and times are
-- milliseconds, in Chunks microseconds. A data frame is the list of its rows and whether it has the
-- required columns. Digests, file contents and what pydantic strips of a text are parameters; the
-- limit that Python puts on the digits of an `int` is left out of Config.Durations. Division
-- by zero does not arise: leverage, prices and equity are tested before. The loops run over lists,
-- but for two: the bisection runs its 60 rounds, and the planner has one round of fuel for each
-- interval in the range and one more, which is proved enough.
--
-- Not modelled: `link_risk_event_fills_lazy`, `limit_turnover`, the marker of the recovery
-- workspace, a crash between two writes to disk, and the engines over arrays, each a part of its
-- own; data preparation and presentation, which are input and output.
pub mod Base
pub mod Chunks
pub mod Config
pub mod Contracts
pub mod Costs
pub mod Dict
pub mod Events
pub mod Exec
pub mod Float
pub mod Position
pub mod Rank
pub mod Risk
pub mod Tests
