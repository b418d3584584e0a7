-- ===== src/Rank.antt =====
-- src/bfbt/portfolio: from ranked snapshots to the symbols that a strategy selects.
pub mod Row
pub mod Snapshots
pub mod Descent
pub mod Refine
pub mod Taken
pub mod Trace
pub mod History
pub mod Lag
pub mod Crossover
pub mod Adjacent
pub mod Crossing
pub mod Requested
